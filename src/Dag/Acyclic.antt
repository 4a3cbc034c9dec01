-- ===== src/Dag/Acyclic.antt =====
-- Preparing source files keeps the order.
use task_maker.Prelude.{
  is_empty, ℕ, ◌≤◌, ◌<◌, ◌≡◌, refl, subst, String, Option, none, some, List, Dict, values,
  string_eq, pair_eq, All-insert, All-map, length, ok, ok-injective, arith, Bool-cases, inl, inr,
  any, ◌==◌,
}
use task_maker.Prelude.Execs.{modify}
use task_maker.Floats.{Floats}
use task_maker.Sources.{World, SourceFile, Dependency}
use task_maker.Dag.{File, output, Input, Config, Dag, key_of, provide}
use task_maker.Dag.Setup.{Handle, provide_deps, output_of}
use task_maker.Dag.Compile.{compilation, compile, grader_files, copy_to, set_prepared, prepare}
use task_maker.Dag.Ordered.{Below, BelowInput, Given, Below-le, BelowInput-le, Given-map}
use task_maker.Dag.Safe.{size, Safe, Safe->>=, Safe-pure, Safe-lift, Safe-get, Safe-if, Safe-modify}
use task_maker.Dag.Register.{Within-provide, Within-provide_deps, Registered, Safe-new_execution}
use task_maker.Dag.Within.{Safe_of_Within, InputsBelow}

-- No claim on what a statement returns.
abbrev pub Whatever : {A : Type 0} → ℕ → A → Type 0
Whatever n a = Unit {0}

module _ {F : Type 0} (n : ℕ) where
  -- A write that concerns neither the executions nor the files that are kept.
  pub Safe-note :
      (f : Dag F → Dag F)
      → ((d : Dag F)
          → ((f d).entries ≡ d.entries)
            × ((f d).prepared ≡ d.prepared)
            × ((f d).case_inputs ≡ d.case_inputs)
            × ((f d).case_outputs ≡ d.case_outputs)
            × ((f d).case_validations ≡ d.case_validations))
      → Safe n (modify f) Whatever
  Safe-note f h = Safe-modify n f (λ d o l.
      let e = h d in
      let long : size (f d) ≡ size d = (λ i. length (e.0 i)) in
      (
        record {
          entries = rw e.0 o.entries;
          prepared = rw (long, e.1) o.prepared;
          case_inputs = rw (long, e.2) o.case_inputs;
          case_outputs = rw (long, e.3) o.case_outputs;
          case_validations = rw (long, e.4) o.case_validations;
        },
        long,
      ))

-- The bounds may grow.
pub Below_up : (n m : ℕ) (f : File) → Below n f → n ≤ m → Below m f
Below_up n m f b l = Below-le n m f l b

pub InputsBelow-up :
    (n m : ℕ) (d : Dict String (Option Input)) → InputsBelow n d → n ≤ m → InputsBelow m d
InputsBelow-up n m d h l =
    All-map (Given (BelowInput n)) (Given (BelowInput m)) (values d)
      (λ o g. Given-map (BelowInput n) (BelowInput m) o (λ i b. BelowInput-le n m i l b) g) h

pub output_of-Below :
    (n : ℕ) (h : Handle) (path : String) (f : File)
    → output_of h path ≡ ok f
    → h.num < n
    → Below n f
unfolding output_of
output_of-Below n h path f q l = elim (Bool-cases (any (λ p. p == path) h.outputs)) [
  | inl e ↦ let p : output h.num path ≡ f = ok-injective (rw e at q) in subst (Below n) p l
  | inr e ↦ absurd (let p = rw e at q in cc)
]

module _ {F : Type 0} (fl : Floats F) (w : World) (config : Config F) where
  pub Safe-provide : (n : ℕ) (path : String) → Safe {F = F} n (provide w path) Below
  Safe-provide n path =
      Safe_of_Within n (provide w path) Below (λ d. Within-provide fl w config (λ x. x ≡ d) n path)
        (λ m f l b. Below_up n m f b l)

  pub Safe-provide_deps :
      (n : ℕ) (deps : List Dependency) (inputs : Dict String (Option Input))
      → InputsBelow n inputs
      → Safe n (provide_deps fl w config deps inputs) InputsBelow
  Safe-provide_deps n deps inputs h =
      Safe_of_Within n (provide_deps fl w config deps inputs) InputsBelow
        (λ d. Within-provide_deps fl w config (λ x. x ≡ d) n deps inputs h)
        (λ m i l b. InputsBelow-up n m i b l)

  pub Safe-compile : (n : ℕ) (source : SourceFile) → Safe n (compile fl w config source) Below
  unfolding compile
  Safe-compile n source =
      Safe->>= n Whatever Below _ _ (Safe-lift n Whatever _ (λ m a l q. tt)) (λ n1 c l1 h1.
        Safe->>= n1 Whatever Below _ _ (Safe-lift n1 Whatever _ (λ m a l q. tt)) (λ n2 name l2 h2.
          Safe->>= n2 Below Below _ _ (Safe-provide n2 source.path) (λ n3 main l3 h3.
            Safe->>= n3 InputsBelow Below _ _ (Safe-provide_deps n3 source.dependencies _ (h3, tt))
              (λ n4 i4 l4 h4.
                Safe->>= n4 InputsBelow Below _ _
                  (Safe-provide_deps n4 (grader_files source.grader) i4 h4)
                  (λ n5 i5 l5 h5.
                    Safe->>= n5 (Registered fl w config) Below _ _
                      (Safe-new_execution fl w config n5 (compilation fl w config source c.0 c.1 i5)
                        (tt, h5))
                      (λ n6 h l6 h6. Safe-lift n6 Below _ (λ m f l q.
                        output_of-Below m h source.exe_name f q
                          (let b : h.num < n6 = h6.0 in omega arith))))))))

  pub Safe-set_prepared :
      (n : ℕ) (source : SourceFile) (f : Option File)
      → Given (Below n) f
      → Safe n (set_prepared fl w config source f) Whatever
  Safe-set_prepared n source f b = Safe-modify n _ (λ d o l. (
    record {
      entries = o.entries;
      prepared =
          All-insert (Given (Below (size d))) (key_of source) f d.prepared
            (Given-map (Below n) (Below (size d)) f (λ g h. Below_up n (size d) g h l) b)
            o.prepared;
      case_inputs = o.case_inputs;
      case_outputs = o.case_outputs;
      case_validations = o.case_validations;
    },
    refl,
  ))

  Safe-copy_to :
      (n : ℕ) (path : Option String) (f : File) → Safe n (copy_to fl w config path f) Whatever
  Safe-copy_to n none f = Safe-pure n Whatever tt (λ m l. tt)
  Safe-copy_to n (some path) f =
      Safe-if n Whatever (is_empty path) _ _ (Safe-pure n Whatever tt (λ m l. tt)) (
        Safe-if n Whatever config.dry_run _ _ (Safe-pure n Whatever tt (λ m l. tt))
          (Safe-note n _ (λ d. (refl, refl, refl, refl, refl))))

  pub Safe-prepare : (n : ℕ) (source : SourceFile) → Safe n (prepare fl w config source) Whatever
  unfolding prepare
  Safe-prepare n source =
      Safe->>= n Whatever Whatever _ _ (Safe-get n Whatever _ (λ d o l. tt)) (λ n1 known l1 h1.
        Safe-if n1 Whatever known _ _ (Safe-pure n1 Whatever tt (λ m l. tt)) (
          Safe->>= n1 Whatever Whatever _ _ (Safe-set_prepared n1 source none tt) (λ n2 u l2 h2.
            Safe->>= n2 Below Whatever _ _
              (Safe-if n2 Below source.language.need_compilation _ _ (Safe-compile n2 source)
                (Safe-provide n2 source.path))
              (λ n3 f l3 h3.
                Safe->>= n3 Whatever Whatever _ _ (Safe-set_prepared n3 source (some f) h3)
                  (λ n4 v l4 h4. Safe-copy_to n4 source.write_bin_to f)))))
