-- ===== src/Dag/Evaluated.antt =====
-- The executions of solutions and checkers keep the order.
use task_maker.Prelude.{
  ℕ, zero, suc, refl, Option, none, some, List, [], ◌∷◌, Dict, values, lookup, string_eq, pair_eq,
  All, All-lookup, All-map, arith, inl, inr, Option-cases,
}
use task_maker.Floats.{Floats}
use task_maker.Sources.{World, SourceFile}
use task_maker.Dag.{File, Config}
use task_maker.Dag.Solutions.{IoiTask, Solution, Pipes}
use task_maker.Dag.Evaluation.{
  create_fifo, add_group, create_pipes, process_setup, add_processes, pipe_inputs, manager_setup,
  evaluate_communication, evaluate, evaluate_cases, evaluate_solutions,
}
use task_maker.Dag.Ordered.{Below, Given}
use task_maker.Dag.Safe.{size, Safe, Safe->>=, Safe-pure, Safe-lift, Safe-get}
use task_maker.Dag.Register.{Safe-new_execution}
use task_maker.Dag.Within.{InputsBelow}
use task_maker.Dag.Acyclic.{Whatever, Safe-note, Below_up, Safe-prepare}
use task_maker.Dag.Checked.{Reg, Given_up, input_stdin-Below, with_input-Below, Safe-evaluate_batch}

module _ {F : Type 0} (fl : Floats F) (w : World) (config : Config F) (task : IoiTask F) where
  Safe-create_pipes : (n count p : ℕ) → Safe n (create_pipes fl w config task count p) Whatever
  unfolding create_pipes
  Safe-create_pipes n zero p = Safe-pure n Whatever _ (λ m l. tt)
  Safe-create_pipes n (suc count) p = Safe->>= n Whatever Whatever _ _ (counted n) (λ n1 a l1 h1.
      Safe->>= n1 Whatever Whatever _ _ (counted n1) (λ n2 b l2 h2.
        Safe->>= n2 Whatever Whatever _ _ (Safe-create_pipes n2 count (suc p))
          (λ n3 rest l3 h3. Safe-pure n3 Whatever _ (λ m l. tt))))
    where
      counted : (k : ℕ) → Safe k (create_fifo fl w config task) Whatever
      counted k = record {
        at = λ d o l. (
          record {
            entries = o.entries;
            prepared = o.prepared;
            case_inputs = o.case_inputs;
            case_outputs = o.case_outputs;
            case_validations = o.case_validations;
          },
          omega arith,
          λ a q. tt,
        );
      }

  Safe-add_processes :
      (n : ℕ) (source : SourceFile) (testcase group p : ℕ) (validation : Option File)
      (pipes : List Pipes)
      → Given (Below n) validation
      → Safe n (add_processes fl w config task source testcase group p validation pipes) Whatever
  unfolding add_processes
  Safe-add_processes n source testcase group p validation [] v = Safe-pure n Whatever _ (λ m l. tt)
  Safe-add_processes n source testcase group p validation (pipe ∷ rest) v =
      Safe->>= n (Reg fl w config task) Whatever _ _
        (Safe-new_execution fl w config n
          (process_setup fl w config task source testcase group p pipe validation)
          (tt, process_inputs validation v))
        (λ n1 h l1 h1.
          Safe->>= n1 Whatever Whatever _ _
            (Safe-add_processes n1 source testcase group (suc p) validation rest
              ((Given_up fl w config task) n n1 validation l1 v))
            (λ n2 hs l2 h2. Safe-pure n2 Whatever _ (λ m l. tt)))
    where
      process_inputs :
          (v : Option File)
          → Given (Below n) v
          → InputsBelow n (process_setup fl w config task source testcase group p pipe v).inputs
      process_inputs none h = (tt, (tt, tt))
      process_inputs (some f) h = (h, (tt, (tt, tt)))

  pipe_inputs-Below :
      (n : ℕ) (pipes : List Pipes) → InputsBelow n (pipe_inputs fl w config task pipes)
  pipe_inputs-Below n [] = tt
  pipe_inputs-Below n (p ∷ ps) = (tt, (tt, pipe_inputs-Below n ps))

  Safe-evaluate_communication :
      (n : ℕ) (source manager : SourceFile) (processes testcase : ℕ) (input : File)
      (validation : Option File)
      → Below n input
      → Given (Below n) validation
      → Safe n
          (evaluate_communication fl w config task source manager processes testcase input
            validation)
          Whatever
  unfolding evaluate_communication
  Safe-evaluate_communication n source manager processes testcase input validation i v =
      Safe->>= n Whatever Whatever _ _ (grouped n) (λ n1 group l1 h1.
        Safe->>= n1 Whatever Whatever _ _ (Safe-create_pipes n1 processes 0) (λ n2 pipes l2 h2.
          Safe->>= n2 Whatever Whatever _ _
            (Safe-add_processes n2 source testcase group 0 validation pipes
              ((Given_up fl w config task) n n2 validation (omega arith) v))
            (λ n3 hs l3 h3.
              let b = Below_up n n3 input i (omega arith) in
              Safe->>= n3 (Reg fl w config task) Whatever _ _
                (Safe-new_execution fl w config n3
                  (manager_setup fl w config task source manager processes testcase group pipes
                    input)
                  (
                    (input_stdin-Below fl w config task) n3 input b,
                    (with_input-Below fl w config task) n3 input
                        (pipe_inputs fl w config task pipes) b (pipe_inputs-Below n3 pipes),
                  ))
                (λ n4 h l4 h4. Safe-pure n4 Whatever _ (λ m l. tt)))))
    where
      grouped : (k : ℕ) → Safe k (add_group fl w config task) Whatever
      grouped k = record {
        at = λ d o l. (
          record {
            entries = o.entries;
            prepared = o.prepared;
            case_inputs = o.case_inputs;
            case_outputs = o.case_outputs;
            case_validations = o.case_validations;
          },
          omega arith,
          λ a q. tt,
        );
      }

  Safe-evaluate :
      (n : ℕ) (sol : Solution) (testcase : ℕ) (input : File) (validation correct : Option File)
      → Below n input
      → Given (Below n) validation
      → Given (Below n) correct
      → Safe n (evaluate fl w config task sol testcase input validation correct) Whatever
  unfolding evaluate
  Safe-evaluate n sol testcase input validation correct i v c =
      elim (Option-cases sol.num_processes) [
        | inl e ↦ rw e (
            (Safe-evaluate_batch fl w config task) n sol.source sol.checker testcase input
              validation correct i v c)
        | inr (k, e) ↦ rw e (elim (Option-cases sol.checker) [
          | inl f ↦ rw f (Safe-lift n Whatever _ (λ m a l q. tt))
          | inr (manager, f) ↦
              rw f
                (Safe-evaluate_communication n sol.source manager k testcase input validation i v)
        ])
      ]

  looked_up :
      (n : ℕ) (d : Dict (ℕ × ℕ) File) (k : ℕ × ℕ)
      → All (Below n) (values d)
      → Given (Below n) (lookup k d)
  looked_up n d k h = elim (Option-cases (lookup k d)) [
    | inl e ↦ rw e tt
    | inr (f, e) ↦ rw e (All-lookup (Below n) k d f e h)
  ]

  Safe-evaluate_cases :
      (n : ℕ) (sol : Solution) (inputs : Dict (ℕ × ℕ) File)
      → All (Below n) (values inputs)
      → Safe n (evaluate_cases fl w config task sol inputs) Whatever
  unfolding evaluate_cases
  Safe-evaluate_cases n sol [] h = Safe-pure n Whatever tt (λ m l. tt)
  Safe-evaluate_cases n sol (((st, tc), input) ∷ rest) h =
      Safe->>= n (λ m f. Given (Below m) f) Whatever _ _
        (Safe-get n (λ m f. Given (Below m) f) _
          (λ d o l. looked_up (size d) d.case_validations (st, tc) o.case_validations))
        (λ n1 v l1 h1.
          Safe->>= n1 (λ m f. Given (Below m) f) Whatever _ _
            (Safe-get n1 (λ m f. Given (Below m) f) _
              (λ d o l. looked_up (size d) d.case_outputs (st, tc) o.case_outputs))
            (λ n2 c l2 h2.
              Safe->>= n2 Whatever Whatever _ _
                (Safe-evaluate n2 sol tc input v c (Below_up n n2 input h.0 (omega arith))
                  ((Given_up fl w config task) n1 n2 v l2 h1) h2)
                (λ n3 r l3 h3.
                  Safe->>= n3 Whatever Whatever _ _
                    (Safe-note n3 _ (λ d. (refl, refl, refl, refl, refl)))
                    (λ n4 u l4 h4.
                      Safe->>= n4 Whatever Whatever _ _
                        (Safe-note n4 _ (λ d. (refl, refl, refl, refl, refl)))
                        (λ n5 u5 l5 h5. Safe-evaluate_cases n5 sol rest (
                          All-map (Below n) (Below n5) (values rest)
                            (λ f b. Below_up n n5 f b (omega arith)) h.1))))))

  pub Safe-evaluate_solutions :
      (n : ℕ) (sols : List Solution) → Safe n (evaluate_solutions fl w config task sols) Whatever
  unfolding evaluate_solutions
  Safe-evaluate_solutions n [] = Safe-pure n Whatever tt (λ m l. tt)
  Safe-evaluate_solutions n (sol ∷ sols) =
      Safe->>= n Whatever Whatever _ _ (Safe-prepare fl w config n sol.source) (λ n1 u1 l1 h1.
        Safe->>= n1 Whatever Whatever _ _ (Safe-note n1 _ (λ d. (refl, refl, refl, refl, refl)))
          (λ n2 u2 l2 h2.
            Safe->>= n2 (λ m d. All (Below m) (values d)) Whatever _ _
              (Safe-get n2 (λ m d. All (Below m) (values d)) _ (λ d o l. o.case_inputs))
              (λ n3 inputs l3 h3.
                Safe->>= n3 Whatever Whatever _ _ (Safe-evaluate_cases n3 sol inputs h3)
                  (λ n4 u4 l4 h4. Safe-evaluate_solutions n4 sols))))
