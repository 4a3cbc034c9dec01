-- ===== src/Dag/Register.antt =====
-- The registration of one execution keeps the order.
use task_maker.Prelude.{
  ℕ, suc, ◌≤◌, ◌<◌, ◌≡◌, refl, sym, ◌∙◌, subst, String, Option, none, some, List, [], ◌∷◌, ◌++◌,
  Dict, values, insert, string_eq, All-insert, All-lookup, All-map, All, length-append, length-set,
  set, Result, ok, err, ok-injective, or_raise-ok, arith,
}
use task_maker.Prelude.Execs.{pure, lift, ◌>>=◌}
use task_maker.Floats.{Floats}
use task_maker.Sources.{World, Dependency}
use task_maker.Dag.{File, stdout, Input, file, Command, Config, Entry, Dag, key_of, provide}
use task_maker.Dag.Setup.{
  Setup, Cmd, paired, of_source, of_path, Stdin, from, text, Handle, blank, add_execution,
  provide_deps, resolve, stdin_of, cons_input, all_inputs, clash, filled, keep_entry, handle,
  new_execution,
}
use task_maker.Dag.Ordered.{
  Below, BelowInput, BelowCommand, Given, EntryBelow, EntriesFrom, Ordered, Below-le, BelowInput-le,
  Given-map, EntriesFrom-append, EntriesFrom-set,
}
use task_maker.Dag.Safe.{size, Safe}
use task_maker.Dag.Within.{
  Within, Within->>=, Within-pure, Within-throw, Within-lift, Within-fetch, Within-if, InputsBelow,
}

module _ {F : Type 0} (fl : Floats F) (w : World) (config : Config F) where
  pub Within-provide :
      (I : Dag F → Type 0) (n : ℕ) (path : String) → Within I (provide w path) (Below n)
  unfolding provide
  Within-provide I n path =
      Within-if I (Below n) (w.is_file path) _ _ (Within-pure I (Below n) _ tt)
        (Within-throw I (Below n) _)

  pub Within-provide_deps :
      (I : Dag F → Type 0) (n : ℕ) (deps : List Dependency) (inputs : Dict String (Option Input))
      → InputsBelow n inputs
      → Within I (provide_deps fl w config deps inputs) (InputsBelow n)
  unfolding provide_deps
  Within-provide_deps I n [] inputs h = Within-pure I (InputsBelow n) inputs h
  Within-provide_deps I n (dep ∷ deps) inputs h =
      Within->>= I (Below n) (InputsBelow n) _ _ (Within-provide I n dep.path) (λ f b.
        Within-provide_deps I n deps (insert dep.name (some (file f)) inputs)
          (All-insert (Given (BelowInput n)) dep.name (some (file f)) inputs b h))

  abbrev pub StdinBelow : ℕ → Stdin → Type 0
  StdinBelow n (from i) = BelowInput n i
  StdinBelow n (text t) = Unit

  -- What an execution is given comes from the first `n`.
  abbrev pub SetupBelow : ℕ → Setup F → Type 0
  SetupBelow n s = Given (StdinBelow n) s.stdin × InputsBelow n s.inputs

  -- The execution `k` has been added, and nothing of it is known yet.
  record Opened (k : ℕ) (d : Dag F) : Type 0 where
    long : size d ≡ suc k
    entries : EntriesFrom 0 d.entries
    prepared : All (Given (Below k)) (values d.prepared)
    case_inputs : All (Below k) (values d.case_inputs)
    case_outputs : All (Below k) (values d.case_outputs)
    case_validations : All (Below k) (values d.case_validations)

  abbrev Resolved : ℕ → Command × Dict String (Option Input) → Type 0
  Resolved k r = BelowCommand k r.0 × InputsBelow k r.1

  Within-resolve :
      (k : ℕ) (s : Setup F)
      → SetupBelow k s
      → Within (Opened k) (resolve fl w config s) (Resolved k)
  unfolding resolve
  Within-resolve k s h = go s.cmd
    where
      go : (c : Cmd) → Within (Opened k) (resolve fl w config (record s { cmd = c })) (Resolved k)
      go (paired name f) = Within-throw _ _ _
      go (of_path p) = Within-pure _ _ _ (tt, h.1)
      go (of_source sf) =
          Within->>= (Opened k) (Given (Below k)) (Resolved k) _ _
            (Within-fetch _ _ _ _
              (λ d a i q. All-lookup (Given (Below k)) (key_of sf) d.prepared a q i.prepared))
            (λ executable e.
              Within->>= (Opened k) (Below k) (Resolved k) _ _
                (Within-lift _ _ _ (λ f q. subst (Given (Below k)) (or_raise-ok executable _ q) e))
                (λ f b.
                  Within->>= (Opened k) (InputsBelow k) (Resolved k) _ _
                    (Within-if _ _ sf.language.need_compilation _ _ (Within-pure _ _ _ h.1)
                      (Within-provide_deps (Opened k) k sf.dependencies s.inputs h.1))
                    (λ inputs i. Within-pure _ _ _ (b, i))))

  cons_input-ok :
      (p : String) (i : Input) (r : Result (Dict String Input)) (g : Dict String Input)
      → cons_input p i r ≡ ok g
      → (rest : Dict String Input) × (r ≡ ok rest) × ((p, i) ∷ rest ≡ g)
  cons_input-ok p i (err e) g q = absurd cc
  cons_input-ok p i (ok rest) g q = (rest, refl, ok-injective q)

  all_inputs-Below :
      (k : ℕ) (d : Dict String (Option Input)) (g : Dict String Input)
      → all_inputs d ≡ ok g
      → InputsBelow k d
      → All (BelowInput k) (values g)
  all_inputs-Below k [] g q h = subst (λ x. All (BelowInput k) (values x)) (ok-injective q) tt
  all_inputs-Below k ((p, none) ∷ d) g q h = absurd cc
  all_inputs-Below k ((p, some i) ∷ d) g q h =
      let (rest, r, e) = cons_input-ok p i (all_inputs d) g q in
      subst (λ x. All (BelowInput k) (values x)) e (h.0, all_inputs-Below k d rest r h.1)

  stdin_of-Below :
      (k : ℕ) (i : Option Stdin)
      → Given (StdinBelow k) i
      → Given (BelowInput k) (stdin_of fl w config i)
  stdin_of-Below k none h = tt
  stdin_of-Below k (some (from i)) h = h
  stdin_of-Below k (some (text t)) h = tt

  HandleOf : ℕ → Handle → Type 0
  HandleOf k h = (h.num ≡ k) × Given (λ f. f ≡ stdout k) h.stdout

  -- From the new entry on, the rest of the setup.
  Within-fill :
      (k : ℕ) (s : Setup F)
      → SetupBelow k s
      → Within
          (Opened k)
          (resolve fl w config s >>= λ r. lift (clash fl w config s) >>= λ u.
            lift (all_inputs r.1) >>= λ given.
            keep_entry fl w config k (filled fl w config s r.0 given) >>= λ v.
            pure (handle fl w config k s))
          (HandleOf k)
  unfolding HandleOf
  Within-fill k s h =
      Within->>= (Opened k) (Resolved k) (HandleOf k) _ _ (Within-resolve k s h) (λ r b.
        Within->>= (Opened k) (λ u. Unit {0}) (HandleOf k) _ _ (Within-lift _ _ _ (λ u q. tt))
          (λ u v.
            Within->>= (Opened k) (λ g. All (BelowInput k) (values g)) (HandleOf k) _ _
              (Within-lift _ _ _ (λ g q. all_inputs-Below k r.1 g q b.1))
              (λ g i.
                Within->>= (Opened k) (λ u. Unit {0}) (HandleOf k) _ _
                  (record {
                    at = λ d o. (keep _ d o (b.0, stdin_of-Below k s.stdin h.0, i), λ u q. tt);
                  })
                  (λ u v. Within-pure _ _ _ (refl, piped s.stdout_fifo)))))
    where
      keep :
          (e : Entry F) (d : Dag F)
          → Opened k d
          → EntryBelow k e
          → Opened k (record d { entries = set d.entries k e })
      keep e d o b = record {
        long = length-set d.entries k e ∙ o.long;
        entries = EntriesFrom-set 0 k k d.entries e (omega arith) o.entries b;
        prepared = o.prepared;
        case_inputs = o.case_inputs;
        case_outputs = o.case_outputs;
        case_validations = o.case_validations;
      }

      piped :
          (p : Option ℕ)
          → Given (λ f. f ≡ stdout k) (elim p [ none ↦ some (stdout k) | some q ↦ none ])
      piped none = refl
      piped (some q) = tt

  opened :
      (s : Setup F) (d : Dag F)
      → Ordered d
      → Opened (size d) (record d { entries = d.entries ++ blank fl w config s ∷ [] })
  opened s d o = record {
    long = let l = length-append d.entries (blank fl w config s ∷ []) in omega (arith, l);
    entries = EntriesFrom-append 0 d.entries (blank fl w config s) o.entries (λ j. (tt, tt, tt));
    prepared = o.prepared;
    case_inputs = o.case_inputs;
    case_outputs = o.case_outputs;
    case_validations = o.case_validations;
  }

  closed : (k : ℕ) (d : Dag F) → Opened k d → Ordered d
  closed k d o = record {
    entries = o.entries;
    prepared =
        All-map (Given (Below k)) (Given (Below (size d))) (values d.prepared)
          (λ f h. Given-map (Below k) (Below (size d)) f (λ g b. up g b) h) o.prepared;
    case_inputs = All-map (Below k) (Below (size d)) (values d.case_inputs) up o.case_inputs;
    case_outputs = All-map (Below k) (Below (size d)) (values d.case_outputs) up o.case_outputs;
    case_validations =
        All-map (Below k) (Below (size d)) (values d.case_validations) up o.case_validations;
  }
    where
      up : (f : File) → Below k f → Below (size d) f
      up f b = Below-le k (size d) f (let l : size d ≡ suc k = o.long in omega arith) b

  pub SetupBelow-le : (n m : ℕ) (s : Setup F) → n ≤ m → SetupBelow n s → SetupBelow m s
  SetupBelow-le n m s l h = (
    Given-map (StdinBelow n) (StdinBelow m) s.stdin stdin_le h.0,
    All-map (Given (BelowInput n)) (Given (BelowInput m)) (values s.inputs)
        (λ o g. Given-map (BelowInput n) (BelowInput m) o (λ i b. BelowInput-le n m i l b) g) h.1,
  )
    where
      stdin_le : (x : Stdin) → StdinBelow n x → StdinBelow m x
      stdin_le (from i) b = BelowInput-le n m i l b
      stdin_le (text t) b = tt

  -- The number and the standard output of a registered execution.
  abbrev pub Registered : ℕ → Handle → Type 0
  Registered m h = (h.num < m) × Given (Below m) h.stdout

  pub Safe-new_execution :
      (n : ℕ) (s : Setup F) → SetupBelow n s → Safe n (new_execution fl w config s) Registered
  unfolding new_execution add_execution ◌>>=◌ HandleOf
  Safe-new_execution n s h = record {
    at = λ d o l.
        let k = size d in
        let r =
          (Within-fill k s (SetupBelow-le n k s l h)).at
            (record d { entries = d.entries ++ blank fl w config s ∷ [] }) (opened s d o) in
        let long = r.0.long in
        (
          closed k _ r.0,
          (let e : size (new_execution fl w config s d).1 ≡ suc (size d) = long in omega arith),
          λ a q.
              let x = r.1 a q in
              let e : size (new_execution fl w config s d).1 ≡ suc (size d) = long in
              let c : a.num ≡ size d = x.0 in
              (
                omega arith,
                Given-map (λ f. f ≡ stdout k) (Below (size (new_execution fl w config s d).1))
                    a.stdout
                    (λ f p.
                      subst (Below (size (new_execution fl w config s d).1)) (sym p) (omega arith))
                    x.1,
              ),
        );
  }
