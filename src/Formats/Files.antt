-- ===== src/Formats/Files.antt =====
-- Finding a task's files and options.
use task_maker.Prelude.{
  String, ◌+s◌, starts_with, Bool, true, false, file_not_found, not, ◌&&◌, Option, none, some, List,
  [], ◌∷◌, ◌++◌, map, Dict, lookup, if◌then◌else◌, Error, Result, ok, err, value_error, contains,
  string_eq,
}
use task_maker.Sources.{World, LanguageManager, valid_extensions}

module _ {ℓ} {V : Type ℓ} (truthy : V → Bool) where
  abbrev default_of : Option V → Result V
  default_of none = err (value_error "Non optional field %s missing from task.yaml")
  default_of (some v) =
      if truthy v then ok v else err (value_error "Non optional field %s missing from task.yaml")

  -- `truthy` is Python's bool of a value.
  unfoldable pub get_options : Dict String V → List String → Option V → Result V
  get_options fields [] default = default_of default
  get_options fields (name ∷ names) default =
      let rest = get_options fields names default in
      elim (lookup name fields) [ some v ↦ ok v | none ↦ rest ]

module _ (w : World) where
  abbrev glob_all : List String → List String
  glob_all [] = []
  glob_all (pattern ∷ patterns) = w.glob pattern ++ glob_all patterns

  abbrev filter : (String → Bool) → List String → List String
  filter p [] = []
  filter p (x ∷ xs) = let rest = filter p xs in if p x then x ∷ rest else rest

  unfoldable pub list_files : LanguageManager → List String → List String → List String
  unfolding valid_extensions
  list_files m patterns exclude =
      filter (λ res. not (contains exclude res) && contains (valid_extensions m) (w.extension res))
        (glob_all patterns)

  abbrev prefix_pattern : String → String → String
  prefix_pattern directory sol =
      if w.is_abs sol && w.is_file sol
      then sol
      else if starts_with sol directory
      then sol +s "*"
      else directory +s (sol +s "*")

  unfoldable pub get_solutions : LanguageManager → List String → String → List String → List String
  unfolding list_files
  get_solutions m [] directory graders =
      filter (λ s. not (starts_with s (directory +s ".")))
        (list_files m ((directory +s "*") ∷ []) (graders ++ (directory +s "__init__.py") ∷ []))
  get_solutions m (sol ∷ sols) directory graders =
      list_files m (map (prefix_pattern directory) (sol ∷ sols)) []

  abbrev first : List String → Option String
  first [] = none
  first (x ∷ l) = some x

  unfoldable pub get_generator : LanguageManager → Option String
  unfolding list_files
  get_generator m = first (list_files m ("gen/generator.*" ∷ "gen/generatore.*" ∷ []) [])

  unfoldable pub get_validator : LanguageManager → Option String
  unfolding list_files
  get_validator m = first (list_files m ("gen/validator.*" ∷ "gen/valida.*" ∷ []) [])

  unfoldable pub get_official_solution : LanguageManager → Option String
  unfolding list_files
  get_official_solution m = first (list_files m ("sol/solution.*" ∷ "sol/soluzione.*" ∷ []) [])

  abbrev only : Error → List String → Result (Option String)
  only e [] = ok none
  only e (x ∷ []) = ok (some x)
  only e (x ∷ y ∷ l) = err e

  unfoldable pub get_checker : LanguageManager → Result (Option String)
  unfolding list_files
  get_checker m =
      only (value_error "Too many checkers in check/cor folder")
        (list_files m ("check/checker.*" ∷ "cor/correttore.*" ∷ []) [])

  unfoldable pub get_manager : LanguageManager → Result (Option String)
  unfolding list_files
  get_manager m =
      only (value_error "Too many managers in check/cor folder")
        (list_files m ("check/manager.*" ∷ "cor/manager.*" ∷ []) [])

  -- get_graders, by whether the task is one of communication
  unfoldable pub get_graders : LanguageManager → Bool → List String
  unfolding list_files
  get_graders m true = list_files m ("sol/stub.*" ∷ []) []
  get_graders m false = list_files m ("sol/grader.*" ∷ []) []

  abbrev first_existing : List String → Result String
  first_existing [] = err file_not_found
  first_existing (path ∷ paths) =
      let rest = first_existing paths in if w.exists path then ok path else rest

  -- detect_yaml, from the working directory; os.path.join with ".." is written out.
  unfoldable pub detect_yaml : String → Result String
  detect_yaml cwd =
      let sibling = cwd +s ("/../" +s w.basename cwd) in
      first_existing (
        (cwd +s "/task.yaml")
        ∷ (cwd +s "/task.yml")
        ∷ (sibling +s ".yaml")
        ∷ (sibling +s ".yml")
        ∷ [])
