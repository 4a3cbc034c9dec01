-- ===== src/Terry/Ordered.antt =====
-- The executions of a Terry task are in order, and what a solution's run waits for:
-- python/formats/terry_format/execution.py.
use task_maker.Prelude.{
  ℕ, ◌≡◌, refl, subst, ap, String, true, Option, none, some, List, [], ◌∷◌, ◌++◌, Dict, lookup,
  string_eq, All-insert, All-lookup, arith, or_raise-ok,
}
use task_maker.Floats.{Floats}
use task_maker.Sources.{World, SourceFile}
use task_maker.Ui.Compilation.{Kind, solution, non_solution}
use task_maker.Dag.{File, Input, file, local, Config, Entry, Dag, key_of}
use task_maker.Dag.Setup.{Handle, filled, new_execution}
use task_maker.Dag.Ordered.{Below, BelowInput, Given, Ordered}
use task_maker.Dag.Safe.{size, Safe, Safe->>=, Safe-pure, Safe-lift, Safe-get}
use task_maker.Dag.Register.{Registered, Safe-new_execution}
use task_maker.Dag.Within.{InputsBelow}
use task_maker.Dag.Acyclic.{Whatever, Safe-note, Below_up, Safe-prepare}
use task_maker.Dag.Registered.{new_execution_lem}
use task_maker.Terry.Execution.{
  TerryTask, seed_of, with_official, executable_in, official_executable, generation_of,
  validation_of, solving_of, checking_of, made, validate, solve_and_check, evaluate_solution, add,
  add_given, evaluate_all, build_terry,
}

module _ {F : Type 0} (fl : Floats F) (w : World) (config : Config F) (task : TerryTask) where
  abbrev Reg : ℕ → Handle → Type 0
  Reg = Registered fl w config

  abbrev GivenBelow : ℕ → Option File → Type 0
  GivenBelow k f = Given (Below k) f

  joined :
      (k : ℕ) (r : Option (Option File))
      → ((x : Option File) → r ≡ some x → GivenBelow k x)
      → GivenBelow k (elim r as (λ x. Option File) [ none ↦ none | some f ↦ f ])
  joined k none h = tt
  joined k (some x) h = h x refl

  executable_in-Below :
      (d : Dag F) (o : Option SourceFile)
      → Ordered d
      → GivenBelow (size d) (executable_in fl w config task d o)
  executable_in-Below d none o = tt
  executable_in-Below d (some official) o =
      joined (size d) (lookup (key_of official) d.prepared)
        (λ x q. All-lookup (Given (Below (size d))) (key_of official) d.prepared x q o.prepared)

  with_official-Below :
      (k : ℕ) (o : Option SourceFile) (f : Option File) (d : Dict String (Option Input))
      → GivenBelow k f
      → InputsBelow k d
      → InputsBelow k (with_official o f d)
  with_official-Below k none f d h i = i
  with_official-Below k (some official) none d h i =
      All-insert (Given (BelowInput k)) official.exe_name none d tt i
  with_official-Below k (some official) (some f) d h i =
      All-insert (Given (BelowInput k)) official.exe_name (some (file f)) d h i

  Safe-official : (k : ℕ) → Safe k (official_executable fl w config task) GivenBelow
  Safe-official k =
      Safe-get k GivenBelow _ (λ d o l. executable_in-Below d task.official_solution o)

  Safe-made : (k : ℕ) (f : Option File) → GivenBelow k f → Safe k (made fl w config task f) Below
  Safe-made k f h =
      Safe-lift k Below _
        (λ m g l q. Below_up k m g (subst (Given (Below k)) (or_raise-ok f _ q) h) l)

  Safe-validate :
      (k : ℕ) (source : SourceFile) (input : File) (v : Option SourceFile)
      → Below k input
      → Safe k (validate fl w config task source input v) Whatever
  unfolding validate
  Safe-validate k source input none b = Safe-pure k Whatever tt (λ m l. tt)
  Safe-validate k source input (some validator) b =
      Safe->>= k GivenBelow Whatever _ _ (Safe-official k) (λ k1 official l1 h1.
        Safe->>= k1 Reg Whatever _ _
          (Safe-new_execution fl w config k1
            (validation_of fl w config task source validator input official)
            (
              Below_up k k1 input b l1,
              with_official-Below k1 task.official_solution official [] h1 tt,
            ))
          (λ k2 h l2 h2. Safe-note k2 _ (λ d. (refl, refl, refl, refl, refl))))

  Safe-solve_and_check :
      (k : ℕ) (source : SourceFile) (input : File)
      → Below k input
      → Safe k (solve_and_check fl w config task source input) Whatever
  unfolding solve_and_check
  Safe-solve_and_check k source input b =
      Safe->>= k Reg Whatever _ _
        (Safe-new_execution fl w config k (solving_of fl w config task source input) (b, tt))
        (λ k1 solved l1 h1.
          Safe->>= k1 Below Whatever _ _ (Safe-made k1 solved.stdout h1.1) (λ k2 answer l2 h2.
            Safe->>= k2 Whatever Whatever _ _ (Safe-note k2 _ (λ d. (refl, refl, refl, refl, refl)))
              (λ k3 u3 l3 h3.
                Safe->>= k3 GivenBelow Whatever _ _ (Safe-official k3) (λ k4 official l4 h4.
                  Safe->>= k4 Reg Whatever _ _
                    (Safe-new_execution fl w config k4
                      (checking_of fl w config task source input answer official)
                      (
                        tt,
                        with_official-Below k4 task.official_solution official _ h4 (
                          Below_up k k4 input b (omega arith),
                          (Below_up k2 k4 answer h2 (omega arith), tt),
                        ),
                      ))
                    (λ k5 checked l5 h5. Safe-note k5 _ (λ d. (refl, refl, refl, refl, refl)))))))

  Safe-evaluate_solution :
      (k seed : ℕ) (source : SourceFile)
      → Safe k (evaluate_solution fl w config task seed source) Whatever
  unfolding evaluate_solution
  Safe-evaluate_solution k seed source =
      Safe->>= k GivenBelow Whatever _ _ (Safe-official k) (λ k1 official l1 h1.
        Safe->>= k1 Reg Whatever _ _
          (Safe-new_execution fl w config k1 (generation_of fl w config task source seed official)
            (tt, with_official-Below k1 task.official_solution official [] h1 tt))
          (λ k2 generated l2 h2.
            Safe->>= k2 Below Whatever _ _ (Safe-made k2 generated.stdout h2.1) (λ k3 input l3 h3.
              Safe->>= k3 Whatever Whatever _ _
                (Safe-note k3 _ (λ d. (refl, refl, refl, refl, refl)))
                (λ k4 u4 l4 h4.
                  Safe->>= k4 Whatever Whatever _ _
                    (Safe-validate k4 source input task.validator (Below_up k3 k4 input h3 l4))
                    (λ k5 u5 l5 h5.
                      Safe-solve_and_check k5 source input
                        (Below_up k3 k5 input h3 (omega arith)))))))

  Safe-add :
      (k : ℕ) (kind : Kind) (source : SourceFile)
      → Safe k (add fl w config task kind source) Whatever
  unfolding add
  Safe-add k kind source =
      Safe->>= k Whatever Whatever _ _ (Safe-prepare fl w config k source)
        (λ k1 u l h. Safe-note k1 _ (λ d. (refl, refl, refl, refl, refl)))

  Safe-add_given : (k : ℕ) (o : Option SourceFile) → Safe k (add_given fl w config task o) Whatever
  Safe-add_given k none = Safe-pure k Whatever tt (λ m l. tt)
  Safe-add_given k (some source) = Safe-add k non_solution source

  Safe-evaluate_all :
      (k : ℕ) (seed : Option ℕ) (sources : List (SourceFile × ℕ))
      → Safe k (evaluate_all fl w config task seed sources) Whatever
  unfolding evaluate_all
  Safe-evaluate_all k seed [] = Safe-pure k Whatever tt (λ m l. tt)
  Safe-evaluate_all k seed ((source, random) ∷ sources) =
      Safe->>= k Whatever Whatever _ _ (Safe-add k solution source) (λ k1 u1 l1 h1.
        Safe->>= k1 Whatever Whatever _ _ (Safe-evaluate_solution k1 (seed_of seed random) source)
          (λ k2 u2 l2 h2. Safe-evaluate_all k2 seed sources))

  Safe-build_terry :
      (k : ℕ) (seed : Option ℕ) (sources : List (SourceFile × ℕ))
      → Safe k (build_terry fl w config task seed sources) Whatever
  unfolding build_terry
  Safe-build_terry k seed sources =
      Safe->>= k Whatever Whatever _ _ (Safe-add k non_solution task.generator) (λ k1 u1 l1 h1.
        Safe->>= k1 Whatever Whatever _ _ (Safe-add_given k1 task.validator) (λ k2 u2 l2 h2.
          Safe->>= k2 Whatever Whatever _ _ (Safe-add_given k2 task.official_solution)
            (λ k3 u3 l3 h3.
              Safe->>= k3 Whatever Whatever _ _ (Safe-add k3 non_solution task.checker)
                (λ k4 u4 l4 h4. Safe-evaluate_all k4 seed sources))))

  -- When a Terry task's executions are registered in a state that is in order, the state is in order
  -- afterwards, also where an exception stops the registration: every execution reads only from the
  -- disk, from texts and from executions registered before it.
  pub build_terry-Ordered :
      (seed : Option ℕ) (sources : List (SourceFile × ℕ)) (d : Dag F)
      → Ordered d
      → Ordered (build_terry fl w config task seed sources d).1
  build_terry-Ordered seed sources d o = ((Safe-build_terry 0 seed sources).at d o (omega arith)).0

  -- When a compiled solution of a Terry task is prepared, its run is registered with the generated input
  -- as its standard input and with no other input: it does not wait for the validation.
  pub solving_of-no_wait :
      (source : SourceFile) (f input : File) (d : Dag F)
      → source.language.need_compilation ≡ true
      → lookup (key_of source) d.prepared ≡ some (some f)
      → (e : Entry F) × ((new_execution fl w config
            (solving_of fl w config task source input)
            d).1.entries
          ≡ d.entries ++ e ∷ [])
        × (e.stdin ≡ some (file input))
        × (e.inputs ≡ [])
  solving_of-no_wait source f input d compiled prepared =
      let s = solving_of fl w config task source input in
      (
        filled fl w config s (local source.exe_name f) [],
        ap (λ r. r.1.entries)
            (new_execution_lem fl w config s source f [] d refl compiled prepared refl refl),
        refl,
        refl,
      )
