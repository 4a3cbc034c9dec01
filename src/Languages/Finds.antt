-- ===== src/Languages/Finds.antt =====
-- When the search of included headers ends: python/languages/c.py and python/languages/asy.py.
use task_maker.Prelude.{
  ℕ, zero, suc, ◌≡◌, refl, ◌<◌, String, ◌+s◌, true, Option, none, some, List, [], ◌∷◌, ◌++◌, All,
  All-map, arith, Bool-cases, inl, inr,
}
use task_maker.Sources.{World, Dependency}
use task_maker.Languages.Headers.{
  Includes, real, found, follow, strip_of, old_find_c_dependency, find_asy_dependency,
}

-- A search returned a list.
abbrev pub Found : Option (List Dependency) → Type 0
Found result = (deps : List Dependency) × (result ≡ some deps)

found-none : (dep : Dependency) (below : Option (List Dependency)) → found dep below none ≡ none
found-none dep none = refl
found-none dep (some below) = refl

module _ (w : World) (i : Includes) where
  -- Where an include of a file in the folder `scope` leads.
  abbrev pub target : String → String → String → String
  target scope suffix include = real w i (i.join_path scope include +s suffix)

  -- The loop returns a list when the recursive call does for every include that exists.
  follow-Found :
      (find : String → Option (List Dependency)) (strip scope suffix : String)
      (includes : List String)
      → All
          (λ include.
            w.exists (target scope suffix include) ≡ true
            → Found (find (target scope suffix include)))
          includes
      → Found (follow w i find strip scope suffix includes)
  unfolding follow
  follow-Found find strip scope suffix [] all = ([], refl)
  follow-Found find strip scope suffix (include ∷ rest) (here, all) =
      elim (Bool-cases (w.exists (target scope suffix include))) [
        | inl h ↦
            let below = here h in
            let after = follow-Found find strip scope suffix rest all in
            rw (h, below.1, after.1) (_, refl)
        | inr h ↦ rw h (follow-Found find strip scope suffix rest all)
      ]

  module _ (rank : String → ℕ) where
    -- The files that a file's includes lead to, when they exist, have a smaller rank than it.
    abbrev pub Descends : (String → List String) → String → Type 0
    Descends includes suffix =
        (filename : String)
        → All
            (λ include.
              w.exists (target (w.dirname filename) suffix include) ≡ true
              → rank (target (w.dirname filename) suffix include) < rank filename)
            (includes filename)

    -- When no file includes itself, also through others (a rank decreases from every file to the ones
    -- it includes), the search for the headers of a C file ends and returns a list.
    pub old_find_c_dependency-Found :
        Descends i.c_includes ""
        → (fuel : ℕ) (strip : Option String) (filename : String) → rank filename < fuel
        → Found (old_find_c_dependency w i fuel strip filename)
    unfolding old_find_c_dependency
    old_find_c_dependency-Found h zero strip filename bound = absurd (omega arith)
    old_find_c_dependency-Found h (suc fuel) strip filename bound =
        let below = old_find_c_dependency w i fuel (some (strip_of w i strip filename)) in
        follow-Found below _ _ _ _ (
          All-map _ _ (i.c_includes filename)
            (λ include smaller e.
              old_find_c_dependency-Found h fuel _ (target (w.dirname filename) "" include)
                (omega (arith, smaller e, bound)))
            (h filename))

    -- When no file includes itself, also through others (a rank decreases from every file to the ones
    -- it includes), the search for the files that an Asymptote source needs ends and returns a list.
    pub find_asy_dependency-Found :
        Descends i.asy_includes ".asy"
        → (fuel : ℕ) (strip : Option String) (filename : String) → rank filename < fuel
        → Found (find_asy_dependency w i fuel strip filename)
    unfolding find_asy_dependency
    find_asy_dependency-Found h zero strip filename bound = absurd (omega arith)
    find_asy_dependency-Found h (suc fuel) strip filename bound =
        let below =
          follow-Found (find_asy_dependency w i fuel (some (strip_of w i strip filename)))
            (strip_of w i strip filename) (w.dirname filename) ".asy" (i.asy_includes filename)
            (All-map _ _ (i.asy_includes filename)
              (λ include smaller e.
                find_asy_dependency-Found h fuel _ (target (w.dirname filename) ".asy" include)
                  (omega (arith, smaller e, bound)))
              (h filename)) in
        rw (find_asy_dependency, below.1) (_, refl)

  -- A file leads to itself, or to another one of a set of files, by an include that exists.
  abbrev pub Leads : (String → Type 0) → (String → List String) → String → Type 0
  Leads files includes filename =
      (before : List String) × (include : String) × (rest : List String) × (includes filename
        ≡ before ++ include ∷ rest)
      × (w.exists (target (w.dirname filename) "" include) ≡ true)
      × files (target (w.dirname filename) "" include)

  follow-none :
      (find : String → Option (List Dependency)) (strip scope suffix : String)
      (before : List String)
      → (include : String) (rest : List String) → w.exists (target scope suffix include) ≡ true
      → find (target scope suffix include) ≡ none
      → follow w i find strip scope suffix (before ++ include ∷ rest) ≡ none
  unfolding follow
  follow-none find strip scope suffix [] include rest e n = rw (e, n) refl
  follow-none find strip scope suffix (x ∷ before) include rest e n =
      elim (Bool-cases (w.exists (target scope suffix x))) [
        | inl h ↦
            rw (h, follow-none find strip scope suffix before include rest e n) (found-none _ _)
        | inr h ↦ rw h (follow-none find strip scope suffix before include rest e n)
      ]

  -- In a set of files in which each includes one of the set, such as a header that includes itself
  -- behind an include guard, the search for the headers of a C file does not end: no depth of the
  -- recursion is enough.
  pub old_find_c_dependency-none :
      (files : String → Type 0)
      → ((filename : String) → files filename → Leads files i.c_includes filename)
      → (fuel : ℕ) (strip : Option String) (filename : String) → files filename
      → old_find_c_dependency w i fuel strip filename ≡ none
  unfolding old_find_c_dependency
  old_find_c_dependency-none files h zero strip filename m = refl
  old_find_c_dependency-none files h (suc fuel) strip filename m =
      let strip = strip_of w i strip filename in
      let (before, include, rest, eq, exists, inside) = h filename m in
      rw eq (
        follow-none (old_find_c_dependency w i fuel (some strip)) strip _ _ before include rest
          exists (old_find_c_dependency-none files h fuel (some strip) _ inside))
