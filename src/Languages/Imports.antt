-- ===== src/Languages/Imports.antt =====
-- The modules that a Python source imports: python/languages/python.py.
use task_maker.Prelude.{
  ℕ, zero, suc, String, ◌+s◌, not, ◌&&◌, Option, none, some, List, [], ◌∷◌, ◌++◌, contains,
  string_eq, if◌then◌else◌,
}
use task_maker.Sources.{World, Dependency}

-- `imports` are the modules that the regular expression finds in a file, `join_path` is os.path.join, and
-- `pop` takes a path out of a set, which Python does in an order of its own.
module _ (w : World) (imports : String → List String) (join_path : String → String → String) where
  abbrev pub module_path : String → String → String
  module_path scope name = join_path scope (name +s ".py")

  -- A set as the list of its elements.
  abbrev pub add : String → List String → List String
  add x set = if contains set x then set else x ∷ set

  -- The loop over the imports of a file: the dependencies and the pending files.
  unfoldable pub visit :
      String
      → List String
      → List String
      → List Dependency × List String
      → List Dependency × List String
  visit scope done [] (deps, pending) = (deps, pending)
  visit scope done (name ∷ names) (deps, pending) =
      let path = module_path scope name in
      visit scope done names (
        if w.exists path && not (contains done path)
        then (deps ++ record { name = w.basename path; path = path } ∷ [], add path pending)
        else (deps, pending))

  module _ (pop : String → List String → String × List String) where
    -- None where `fuel` rounds were not enough.
    unfoldable pub search_imports :
        ℕ → String → List String → List Dependency → List String → Option (List Dependency)
    unfolding visit
    search_imports fuel scope done deps [] = some deps
    search_imports zero scope done deps (p ∷ pending) = none
    search_imports (suc fuel) scope done deps (p ∷ pending) =
        let (path, others) = pop p pending in
        let (deps, pending) = visit scope (path ∷ done) (imports path) (deps, others) in
        search_imports fuel scope (path ∷ done) deps pending

    unfoldable pub find_python_dependency : ℕ → String → Option (List Dependency)
    unfolding search_imports
    find_python_dependency fuel filename =
        search_imports fuel (w.dirname filename) [] [] (filename ∷ [])
