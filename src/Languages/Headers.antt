-- ===== src/Languages/Headers.antt =====
-- The files that a source includes: python/languages/c.py and python/languages/asy.py.
use task_maker.Prelude.{
  ℕ, zero, suc, String, ◌+s◌, starts_with, Option, none, some, List, [], ◌∷◌, ◌++◌, string_eq, ◌==◌,
  if◌then◌else◌,
}
use task_maker.Sources.{World, Dependency}

-- name[len(prefix):]
abbrev without : String → String → String
without String.[] s = s
without (String.◌∷◌ c p) String.[] = String.[]
without (String.◌∷◌ c p) (String.◌∷◌ d s) = without p s

abbrev stripped : String → String → String → String
stripped strip path name = if starts_with path strip then without strip path else name

listed : String → List String → List Dependency
listed strip [] = []
listed strip (dep ∷ deps) =
    let rest = listed strip deps in
    if dep == "\\" then rest else record { name = stripped strip dep dep; path = dep } ∷ rest

-- `words` are those of the output of `cc -MM`, none where it failed.
unfoldable pub new_find_c_dependency : World → Option (List String) → String → List Dependency
unfolding listed
new_find_c_dependency w (some (object ∷ source ∷ deps)) filename =
    listed (w.dirname filename +s "/") deps
new_find_c_dependency w words filename = []

-- What the two searches know of the file system beside `World`: os.path.join, the links with what they
-- lead to (os.path.realpath), and the matches of the regular expressions in a file.
pub record Includes : Type 0 where
  pub join_path : String → String → String
  pub link : String → Option String
  pub c_includes : String → List String
  pub asy_includes : String → List String
  pub asy_graphics : String → List String

-- A dependency, those of its file, and those of the includes after it.
abbrev pub found :
    Dependency → Option (List Dependency) → Option (List Dependency) → Option (List Dependency)
found dep (some below) (some after) = some (dep ∷ (below ++ after))
found dep below after = none

module _ (w : World) (i : Includes) where
  abbrev pub real : String → String
  real path = elim (i.link path) [ none ↦ path | some p ↦ p ]

  -- The loops over the includes of a file in the folder `scope`. `find` is the recursive call; none
  -- stands for a recursion that does not end.
  unfoldable pub follow :
      (String → Option (List Dependency))
      → String
      → String
      → String
      → List String
      → Option (List Dependency)
  follow find strip scope suffix [] = some []
  follow find strip scope suffix (include ∷ rest) =
      let path = i.join_path scope include +s suffix in
      let others = follow find strip scope suffix rest in
      if w.exists (real path)
      then found (record { name = stripped strip path include; path = real path })
          (find (real path)) others
      else others

  -- `strip` is none for the file that the search starts at.
  abbrev pub strip_of : Option String → String → String
  strip_of none filename = w.dirname filename +s "/"
  strip_of (some strip) filename = strip

  unfoldable pub old_find_c_dependency : ℕ → Option String → String → Option (List Dependency)
  unfolding follow
  old_find_c_dependency zero strip filename = none
  old_find_c_dependency (suc fuel) strip filename =
      follow (old_find_c_dependency fuel (some (strip_of strip filename))) (strip_of strip filename)
        (w.dirname filename) "" (i.c_includes filename)

  unfoldable pub find_c_dependency : ℕ → Option (List String) → String → Option (List Dependency)
  unfolding new_find_c_dependency old_find_c_dependency
  find_c_dependency fuel words filename = elim (w.find_executable "cc") [
    | some cc ↦ some (new_find_c_dependency w words filename)
    | none ↦ old_find_c_dependency fuel none filename
  ]

  abbrev graphics_of : String → List String → List Dependency
  graphics_of scope [] = []
  graphics_of scope (graphic ∷ rest) =
      record {
        name = without (scope +s "/") (i.join_path scope graphic);
        path = i.join_path scope graphic;
      }
      ∷ graphics_of scope rest

  unfoldable pub find_asy_dependency : ℕ → Option String → String → Option (List Dependency)
  unfolding follow
  find_asy_dependency zero strip filename = none
  find_asy_dependency (suc fuel) strip filename =
      let below =
        follow (find_asy_dependency fuel (some (strip_of strip filename))) (strip_of strip filename)
          (w.dirname filename) ".asy" (i.asy_includes filename) in
      elim below [
        | none ↦ none
        | some deps ↦ some (deps ++ graphics_of (w.dirname filename) (i.asy_graphics filename))
      ]
