-- ===== src/Dag/Checked.antt =====
-- The executions of batch solutions and checkers keep the order.
use task_maker.Prelude.{
  ℕ, ◌≤◌, ◌<◌, ◌≡◌, refl, subst, String, Option, none, some, Dict, string_eq, pair_eq, All-insert,
  Result, ok, err, ok-injective, arith, Bool-cases, inl, inr, is_empty,
}
use task_maker.Prelude.Execs.{lift}
use task_maker.Floats.{Floats}
use task_maker.Sources.{World, SourceFile}
use task_maker.Dag.{File, Input, file, Config}
use task_maker.Dag.Setup.{Handle, output_of}
use task_maker.Dag.Solutions.{
  IoiTask, checker_setup, prepare_checker, get_checker_execution, wait_validation, with_input,
  input_stdin, output_file_of, batch_setup, evaluate_batch, optional,
}
use task_maker.Dag.Ordered.{Below, BelowInput, Given, Given-map}
use task_maker.Dag.Safe.{Safe, Safe->>=, Safe-pure, Safe-lift}
use task_maker.Dag.Register.{SetupBelow, StdinBelow, Registered, Safe-new_execution}
use task_maker.Dag.Within.{InputsBelow}
use task_maker.Dag.Acyclic.{Whatever, Below_up, output_of-Below, Safe-prepare}

module _ {F : Type 0} (fl : Floats F) (w : World) (config : Config F) (task : IoiTask F) where
  abbrev pub Reg : ℕ → Handle → Type 0
  Reg = Registered fl w config

  pub Given_up : (n m : ℕ) (f : Option File) → n ≤ m → Given (Below n) f → Given (Below m) f
  Given_up n m f l h = Given-map (Below n) (Below m) f (λ g b. Below_up n m g b l) h

  optional-Below :
      (n : ℕ) (f : Option File)
      → Given (Below n) f
      → Given (BelowInput n) (optional fl w config task f)
  optional-Below n none h = tt
  optional-Below n (some f) h = h

  checker_setup-Below :
      (n : ℕ) (checker : Option SourceFile) (input out correct : Option File) (message : String)
      → Given (Below n) input
      → Given (Below n) out
      → Given (Below n) correct
      → SetupBelow fl w config n (checker_setup fl w config task checker input out correct message)
  checker_setup-Below n none input out correct message i o c =
      (tt, (optional-Below n correct c, (optional-Below n out o, tt)))
  checker_setup-Below n (some sf) input out correct message i o c =
      (tt, (optional-Below n input i, (optional-Below n correct c, (optional-Below n out o, tt))))

  Safe-prepare_checker :
      (n : ℕ) (checker : Option SourceFile)
      → Safe n (prepare_checker fl w config task checker) Whatever
  Safe-prepare_checker n none = Safe-pure n Whatever tt (λ m l. tt)
  Safe-prepare_checker n (some sf) = Safe-prepare fl w config n sf

  Safe-get_checker_execution :
      (n : ℕ) (checker : Option SourceFile) (input out correct : Option File) (message : String)
      → Given (Below n) input
      → Given (Below n) out
      → Given (Below n) correct
      → Safe n (get_checker_execution fl w config task checker input out correct message) Reg
  unfolding get_checker_execution
  Safe-get_checker_execution n checker input out correct message i o c =
      Safe->>= n Whatever Reg _ _ (Safe-prepare_checker n checker) (λ n1 u l1 h1.
        Safe-new_execution fl w config n1
          (checker_setup fl w config task checker input out correct message)
          (checker_setup-Below n1 checker input out correct message (Given_up n n1 input l1 i)
            (Given_up n n1 out l1 o) (Given_up n n1 correct l1 c)))

  pub input_stdin-Below :
      (n : ℕ) (input : File)
      → Below n input
      → Given (StdinBelow fl w config n) (input_stdin fl w config task input)
  input_stdin-Below n input b = elim (Bool-cases (is_empty task.input_file)) [
    | inl e ↦ rw e b
    | inr e ↦ rw e tt
  ]

  pub with_input-Below :
      (n : ℕ) (input : File) (d : Dict String (Option Input))
      → Below n input
      → InputsBelow n d
      → InputsBelow n (with_input fl w config task input d)
  with_input-Below n input d b h = elim (Bool-cases (is_empty task.input_file)) [
    | inl e ↦ rw e h
    | inr e ↦ rw e (All-insert (Given (BelowInput n)) task.input_file (some (file input)) d b h)
  ]

  wait_validation-Below :
      (n : ℕ) (v : Option File)
      → Given (Below n) v
      → InputsBelow n (wait_validation fl w config task v)
  wait_validation-Below n none h = tt
  wait_validation-Below n (some f) h = (h, tt)

  pub Safe-output_file_of :
      (n : ℕ) (h : Handle)
      → Reg n h
      → Safe {F = F} n (lift (output_file_of fl w config task h)) (λ m f. Given (Below m) f)
  Safe-output_file_of n h r = Safe-lift n (λ m f. Given (Below m) f) _ (λ m f l q. go m f l q)
    where
      named :
          (m : ℕ) (f : Option File) (r : Result File)
          → ((g : File) → r ≡ ok g → Below m g)
          → (elim r as (λ x. Result (Option File)) [ err e ↦ err e | ok g ↦ ok (some g) ]) ≡ ok f
          → Given (Below m) f
      named m f (err e) b q = absurd cc
      named m f (ok g) b q = subst (Given (Below m)) (ok-injective q) (b g refl)

      go :
          (m : ℕ) (f : Option File)
          → n ≤ m
          → output_file_of fl w config task h ≡ ok f
          → Given (Below m) f
      go m f l q = elim (Bool-cases (is_empty task.output_file)) [
        | inl e ↦
            let p : h.stdout ≡ f = ok-injective (rw e at q) in
            subst (Given (Below m)) p (Given_up n m h.stdout l r.1)
        | inr e ↦
            named m f (output_of h task.output_file)
              (λ g p.
                output_of-Below m h task.output_file g p (let b : h.num < n = r.0 in omega arith))
              (rw e at q)
      ]

  pub Safe-evaluate_batch :
      (n : ℕ) (source : SourceFile) (checker : Option SourceFile) (testcase : ℕ) (input : File)
      (validation correct : Option File)
      → Below n input
      → Given (Below n) validation
      → Given (Below n) correct
      → Safe n
          (evaluate_batch fl w config task source checker testcase input validation correct)
          Whatever
  unfolding evaluate_batch
  Safe-evaluate_batch n source checker testcase input validation correct i v c =
      Safe->>= n Reg Whatever _ _
        (Safe-new_execution fl w config n
          (batch_setup fl w config task source testcase input validation)
          (
            input_stdin-Below n input i,
            with_input-Below n input (wait_validation fl w config task validation) i
                (wait_validation-Below n validation v),
          ))
        (λ n1 eval l1 h1.
          Safe->>= n1 (λ m f. Given (Below m) f) Whatever _ _ (Safe-output_file_of n1 eval h1)
            (λ n2 out l2 h2.
              Safe->>= n2 Reg Whatever _ _
                (Safe-get_checker_execution n2 checker (some input) out correct _
                  (Below_up n n2 input i (omega arith)) h2 (Given_up n n2 correct (omega arith) c))
                (λ n3 check l3 h3. Safe-pure n3 Whatever _ (λ m l. tt))))
