-- ===== src/Languages/Visits.antt =====
-- The search of imported modules ends: python/languages/python.py.
use task_maker.Prelude.{
  ℕ, zero, suc, ◌≡◌, refl, sym, ap, ◌<◌, ◌≤◌, String, true, false, not, ◌&&◌, List, [], ◌∷◌, All,
  arith, Bool-cases, inl, inr, contains, string_eq, ◌==◌, if◌then◌else◌, length,
}
use task_maker.Sources.{World, Dependency}
use task_maker.Languages.Imports.{module_path, add, visit, search_imports, find_python_dependency}
use task_maker.Languages.Finds.{Found}

-- How many of `files` are not done.
unvisited : List String → List String → ℕ
unvisited done [] = 0
unvisited done (x ∷ files) =
    if contains done x then unvisited done files else suc (unvisited done files)

unvisited-≤ : (done files : List String) → unvisited done files ≤ length files
unfolding unvisited
unvisited-≤ done [] = omega arith
unvisited-≤ done (x ∷ files) = ground (arith, unvisited-≤ done files)

unvisited_mono :
    (y : String) (done files : List String) → unvisited (y ∷ done) files ≤ unvisited done files
unfolding unvisited
unvisited_mono y done [] = omega arith
unvisited_mono y done (x ∷ files) = ground (arith, unvisited_mono y done files)

unvisited-< :
    (y : String) (done files : List String)
    → contains files y ≡ true
    → contains done y ≡ false
    → unvisited (y ∷ done) files < unvisited done files
unfolding unvisited
unvisited-< y done [] m n = absurd cc
unvisited-< y done (x ∷ files) m n = elim (Bool-cases (x == y)) [
  | inl e ↦
      let same : x ≡ y = (string_eq.beq_iff x y).0 e in
      ground (arith, unvisited_mono y done files, same, ap (contains done) same, sym same)
  | inr e ↦ ground (arith, unvisited_mono y done files, unvisited-< y done files (rw e at m) n)
]

module _ (w : World) (imports : String → List String) (join_path : String → String → String) where
  -- Every module of a file of `files` that exists is one of `files`.
  abbrev pub IsClosed : String → List String → Type 0
  IsClosed scope files =
      (path : String)
      → contains files path ≡ true
      → All
          (λ name.
            w.exists (module_path w imports join_path scope name) ≡ true
            → contains files (module_path w imports join_path scope name) ≡ true)
          (imports path)

  -- What waits is a file of `files` that is not done.
  abbrev Waits : List String → List String → List String → Type 0
  Waits files done pending =
      (path : String)
      → contains pending path ≡ true
      → (contains files path ≡ true) × (contains done path ≡ false)

  add-Waits :
      (files done pending : List String) (x : String)
      → contains files x ≡ true
      → contains done x ≡ false
      → Waits files done pending
      → Waits files done (add w imports join_path x pending)
  add-Waits files done pending x m n h path p = elim (Bool-cases (contains pending x)) [
    | inl e ↦ h path (rw e at p)
    | inr e ↦ elim (Bool-cases (x == path)) [
      | inl s ↦ let same : x ≡ path = (string_eq.beq_iff x path).0 s in (cc, cc)
      | inr s ↦ h path (rw (e, s) at p)
    ]
  ]

  first :
      (files : List String) (filename path : String)
      → contains files filename ≡ true
      → contains (filename ∷ []) path ≡ true
      → (contains files path ≡ true) × (contains [] path ≡ false)
  first files filename path m p = elim (Bool-cases (filename == path)) [
    | inl s ↦ let same : filename ≡ path = (string_eq.beq_iff filename path).0 s in (cc, refl)
    | inr s ↦ absurd cc
  ]

  visit-Waits :
      (scope : String) (files done names : List String) (deps : List Dependency)
      (pending : List String)
      → All
          (λ name.
            w.exists (module_path w imports join_path scope name) ≡ true
            → contains files (module_path w imports join_path scope name) ≡ true)
          names
      → Waits files done pending
      → Waits files done (visit w imports join_path scope done names (deps, pending)).1
  unfolding visit
  visit-Waits scope files done [] deps pending all h = h
  visit-Waits scope files done (name ∷ names) deps pending (m, all) h =
      let path = module_path w imports join_path scope name in
      elim (Bool-cases (w.exists path && not (contains done path))) [
        | inl e ↦
            rw (visit, e)
              (visit-Waits scope files done names _ _ all
                (add-Waits files done pending path (m (ground (arith, e))) (ground (arith, e)) h))
        | inr e ↦ rw (visit, e) (visit-Waits scope files done names deps pending all h)
      ]

  module _ (pop : String → List String → String × List String) where
    -- A pop takes an element out of a set and leaves the others.
    abbrev pub Pops : Type 0
    Pops =
        (x : String) (set : List String)
        → (contains (x ∷ set) (pop x set).0 ≡ true)
          × ((y : String)
              → contains (pop x set).1 y ≡ true
              → (contains (x ∷ set) y ≡ true) × (((pop x set).0 == y) ≡ false))

    search_imports-Found :
        (scope : String) (files : List String)
        → Pops
        → IsClosed scope files
        → (fuel : ℕ) (done : List String) (deps : List Dependency) (pending : List String)
        → Waits files done pending
        → unvisited done files ≤ fuel
        → Found (search_imports w imports join_path pop fuel scope done deps pending)
    unfolding search_imports
    search_imports-Found scope files pops closed zero done deps [] h bound = (deps, refl)
    search_imports-Found scope files pops closed (suc fuel) done deps [] h bound = (deps, refl)
    search_imports-Found scope files pops closed zero done deps (p ∷ pending) h bound =
        let (m, n) = h (pop p pending).0 (pops p pending).0 in
        absurd (omega (arith, unvisited-< (pop p pending).0 done files m n, bound))
    search_imports-Found scope files pops closed (suc fuel) done deps (p ∷ pending) h bound =
        let (taken, left) = pops p pending in
        let path = (pop p pending).0 in
        let (m, n) = h path taken in
        search_imports-Found scope files pops closed fuel (path ∷ done) _ _
          (visit-Waits scope files (path ∷ done) (imports path) deps (pop p pending).1
            (closed path m)
            (λ y q. let (wait, other) = left y q in (((h y wait).0), rw other (h y wait).1)))
          (omega (arith, unvisited-< path done files m n))

    -- When pending files are taken in any order and every existing module that a file of `files` imports is
    -- again one of `files`, the search from one of them ends, cyclic imports included: it takes at most as
    -- many rounds as there are files.
    pub find_python_dependency-Found :
        (files : List String) (filename : String)
        → Pops
        → IsClosed (w.dirname filename) files
        → contains files filename ≡ true
        → (fuel : ℕ) → length files ≤ fuel
        → Found (find_python_dependency w imports join_path pop fuel filename)
    unfolding find_python_dependency
    find_python_dependency-Found files filename pops closed m fuel bound =
        search_imports-Found (w.dirname filename) files pops closed fuel [] [] (filename ∷ [])
          (λ path p. first files filename path m p) (omega (arith, unvisited-≤ [] files))
