-- ===== src/Dag/Generated.antt =====
-- The generation and the validation of inputs keep the order.
use task_maker.Prelude.{
  ℕ, refl, subst, String, true, false, Option, none, some, [], pair_eq, All-insert, arith,
  or_raise-ok,
}
use task_maker.Floats.{Floats}
use task_maker.Sources.{World, SourceFile}
use task_maker.Formats.{Generator, TestCase, Subtask, Numbers}
use task_maker.Dag.{File, Config}
use task_maker.Dag.Setup.{Handle}
use task_maker.Dag.Solutions.{IoiTask}
use task_maker.Dag.Inputs.{
  add_non_solution, add_optional, set_input, set_output, set_validation, made, validation_setup,
  validate, validate_optional, static_input, generation_setup, generated_input,
}
use task_maker.Dag.Ordered.{Below, Given}
use task_maker.Dag.Safe.{
  size, Safe, Safe->>=, Safe-pure, Safe-lift, Safe-get, Safe-if, Safe-modify, Safe-catch_runtime,
}
use task_maker.Dag.Register.{Registered, Safe-new_execution}
use task_maker.Dag.Within.{InputsBelow}
use task_maker.Dag.Acyclic.{
  Whatever, Safe-note, Below_up, Safe-provide, Safe-provide_deps, Safe-prepare,
}

module _ {F : Type 0} (fl : Floats F) (n : Numbers F) (w : World) (config : Config F)
    (task : IoiTask F) where
  abbrev pub Reg : ℕ → Handle → Type 0
  Reg = Registered fl w config

  pub Safe-add_non_solution :
      (k : ℕ) (source : SourceFile) → Safe k (add_non_solution fl n w config task source) Whatever
  unfolding add_non_solution
  Safe-add_non_solution k source =
      Safe->>= k Whatever Whatever _ _ (Safe-get k Whatever _ (λ d o l. tt)) (λ k1 known l1 h1.
        Safe-if k1 Whatever known _ _ (Safe-pure k1 Whatever tt (λ m l. tt)) (
          Safe->>= k1 Whatever Whatever _ _ (Safe-prepare fl w config k1 source)
            (λ k2 u l2 h2. Safe-note k2 _ (λ d. (refl, refl, refl, refl, refl)))))

  pub Safe-add_optional :
      (k : ℕ) (g : Option Generator) → Safe k (add_optional fl n w config task g) Whatever
  Safe-add_optional k none = Safe-pure k Whatever tt (λ m l. tt)
  Safe-add_optional k (some g) = Safe-add_non_solution k g.source_file

  module _ (k : ℕ) (key : ℕ × ℕ) (f : File) (b : Below k f) where
    Safe-set_input : Safe k (set_input fl n w config task key f) Whatever
    Safe-set_input = Safe-modify k _ (λ d o l. (
      record {
        entries = o.entries;
        prepared = o.prepared;
        case_outputs = o.case_outputs;
        case_validations = o.case_validations;
        case_inputs =
            All-insert (Below (size d)) key f d.case_inputs (Below_up k (size d) f b l)
              o.case_inputs;
      },
      refl,
    ))

    pub Safe-set_output : Safe k (set_output fl n w config task key f) Whatever
    Safe-set_output = Safe-modify k _ (λ d o l. (
      record {
        entries = o.entries;
        prepared = o.prepared;
        case_inputs = o.case_inputs;
        case_validations = o.case_validations;
        case_outputs =
            All-insert (Below (size d)) key f d.case_outputs (Below_up k (size d) f b l)
              o.case_outputs;
      },
      refl,
    ))

    Safe-set_validation : Safe k (set_validation fl n w config task key f) Whatever
    Safe-set_validation = Safe-modify k _ (λ d o l. (
      record {
        entries = o.entries;
        prepared = o.prepared;
        case_inputs = o.case_inputs;
        case_outputs = o.case_outputs;
        case_validations =
            All-insert (Below (size d)) key f d.case_validations (Below_up k (size d) f b l)
              o.case_validations;
      },
      refl,
    ))

  pub Safe-made :
      (k : ℕ) (f : Option File) → Given (Below k) f → Safe k (made fl n w config task f) Below
  Safe-made k f h =
      Safe-lift k Below _
        (λ m g l q. Below_up k m g (subst (Given (Below k)) (or_raise-ok f _ q) h) l)

  Safe-validate :
      (k st tc : ℕ) (testcase : TestCase) (subtask : Subtask F) (v : Generator) (input : File)
      → Below k input
      → Safe k (validate fl n w config task st tc testcase subtask v input) Whatever
  unfolding validate
  Safe-validate k st tc testcase subtask v input b =
      Safe->>= k Whatever Whatever _ _ (Safe-lift k Whatever _ (λ m a l q. tt)) (λ k1 args l1 h1.
        Safe->>= k1 Reg Whatever _ _
          (Safe-new_execution fl w config k1 (validation_setup fl n w config task v tc args input)
            (tt, (Below_up k k1 input b l1, tt)))
          (λ k2 val l2 h2.
            Safe->>= k2 Below Whatever _ _ (Safe-made k2 val.stdout h2.1) (λ k3 f l3 h3.
              Safe->>= k3 Whatever Whatever _ _ (Safe-set_validation k3 (st, tc) f h3)
                (λ k4 u l4 h4. Safe-note k4 _ (λ d. (refl, refl, refl, refl, refl))))))

  Safe-validate_optional :
      (k st tc : ℕ) (testcase : TestCase) (subtask : Subtask F) (v : Option Generator)
      (input : File)
      → Below k input
      → Safe k (validate_optional fl n w config task st tc testcase subtask v input) Whatever
  Safe-validate_optional k st tc testcase subtask none input b = Safe-pure k Whatever tt (λ m l. tt)
  Safe-validate_optional k st tc testcase subtask (some v) input b =
      Safe-validate k st tc testcase subtask v input b

  pub Safe-static_input :
      (k st tc : ℕ) (testcase : TestCase) (subtask : Subtask F) (path : String)
      → Safe k (static_input fl n w config task st tc testcase subtask path) Whatever
  unfolding static_input
  Safe-static_input k st tc testcase subtask path =
      Safe-catch_runtime k Whatever _ _
        (Safe->>= k Below Whatever _ _ (Safe-provide fl w config k path) (λ k1 f l1 h1.
          Safe->>= k1 Whatever Whatever _ _ (Safe-set_input k1 (st, tc) f h1) (λ k2 u l2 h2.
            Safe->>= k2 Whatever Whatever _ _
              (Safe-validate_optional k2 st tc testcase subtask testcase.validator f
                (Below_up k1 k2 f h1 l2))
              (λ k3 v l3 h3. Safe-pure k3 Whatever true (λ m l. tt)))))
        (λ k1 what l1.
          Safe->>= k1 Whatever Whatever _ _ (Safe-note k1 _ (λ d. (refl, refl, refl, refl, refl)))
            (λ k2 u l2 h2. Safe-pure k2 Whatever false (λ m l. tt)))

  pub Safe-generated_input :
      (k st tc : ℕ) (testcase : TestCase) (subtask : Subtask F)
      → Safe k (generated_input fl n w config task st tc testcase subtask) Whatever
  unfolding generated_input
  Safe-generated_input k st tc testcase subtask =
      Safe->>= k Whatever Whatever _ _ (Safe-lift k Whatever _ (λ m a l q. tt)) (λ k1 g l1 h1.
        Safe->>= k1 Whatever Whatever _ _ (Safe-add_non_solution k1 g.source_file) (λ k2 u l2 h2.
          Safe->>= k2 InputsBelow Whatever _ _
            (Safe-provide_deps fl w config k2 testcase.extra_deps [] tt)
            (λ k3 deps l3 h3.
              Safe->>= k3 Reg Whatever _ _
                (Safe-new_execution fl w config k3
                  (generation_setup fl n w config task g tc testcase.generator_args deps) (tt, h3))
                (λ k4 gen l4 h4.
                  Safe->>= k4 Below Whatever _ _ (Safe-made k4 gen.stdout h4.1) (λ k5 f l5 h5.
                    Safe->>= k5 Whatever Whatever _ _ (Safe-set_input k5 (st, tc) f h5)
                      (λ k6 u6 l6 h6.
                        Safe->>= k6 Whatever Whatever _ _
                          (Safe-note k6 _ (λ d. (refl, refl, refl, refl, refl)))
                          (λ k7 u7 l7 h7.
                            Safe->>= k7 Whatever Whatever _ _
                              (Safe-lift k7 Whatever _ (λ m a l q. tt))
                              (λ k8 v l8 h8.
                                Safe->>= k8 Whatever Whatever _ _
                                  (Safe-validate k8 st tc testcase subtask v f
                                    (Below_up k5 k8 f h5 (omega arith)))
                                  (λ k9 u9 l9 h9. Safe-pure k9 Whatever true (λ m l. tt))))))))))
