-- ===== src/Terry/Parsing.antt =====
-- The files of a Terry task: python/formats/terry_format/parsing.py.
use task_maker.Prelude.{
  String, ◌+s◌, Bool, true, false, Option, none, some, List, [], ◌∷◌, if◌then◌else◌, drop_chars,
  Result, ok, err, ◌>>=◌, value_error, file_not_found,
}
use task_maker.Sources.{World, LanguageManager, Arch, SourceFile, from_file}
use task_maker.Formats.Files.{list_files, get_solutions}
use task_maker.Terry.Execution.{TerryTask}

-- The name and the machine of the platform, in lower case the first.
pub record Platform : Type 0 where
  pub system : String
  pub machine : String

unfoldable pub get_extension : Platform → Arch → String
get_extension p Arch.default = "." +s (p.system +s ("." +s p.machine))
get_extension p Arch.x86_64 = "." +s (p.system +s ".x86_64")
get_extension p Arch.i686 = "." +s (p.system +s ".i686")

module _ (w : World) (m : LanguageManager) (p : Platform) where
  abbrev pub managers_of : String → List String
  managers_of manager =
      list_files w m (("managers/" +s (manager +s ".*")) ∷ [])
        (("managers/" +s (manager +s ".*.*")) ∷ [])

  abbrev pub as_some : Result SourceFile → Result (Option SourceFile)
  as_some (err e) = err e
  as_some (ok source) = ok (some source)

  -- By the managers that are found.
  abbrev pub one_manager : List String → String → Arch → Bool → Result (Option SourceFile)
  one_manager [] manager arch optional = if optional then ok none else err file_not_found
  one_manager (path ∷ []) manager arch optional =
      as_some
        (from_file w m path manager true ("managers/" +s (manager +s get_extension p arch)) arch [])
  one_manager (path ∷ other ∷ paths) manager arch optional = err (value_error "Ambiguous manager: ")

  unfoldable pub get_manager : String → Arch → Bool → Result (Option SourceFile)
  unfolding list_files get_extension from_file
  get_manager manager arch optional = one_manager (managers_of manager) manager arch optional

  abbrev required : Option SourceFile → Result SourceFile
  required none = err file_not_found
  required (some source) = ok source

  -- The part of `get_task` that looks for the managers.
  unfoldable pub get_task : Arch → Result TerryTask
  unfolding get_manager
  get_task arch = do
    found ← get_manager "generator" arch false
    generator ← required found
    validator ← get_manager "validator" arch true
    official ← get_manager "solution" arch true
    found ← get_manager "checker" arch false
    checker ← required found
    ok (record {
      generator = generator;
      validator = validator;
      official_solution = official;
      checker = checker;
    })

  abbrev pub solution_source : Bool → String → String → Result SourceFile
  solution_source copy_exe task_name path =
      from_file w m path task_name copy_exe
        ("bin/"
          +s (w.root (w.basename path) +s ("_" +s drop_chars 1 (w.extension (w.basename path)))))
        Arch.default []

  unfoldable pub load_sources : Bool → String → List String → Result (List SourceFile)
  unfolding from_file
  load_sources copy_exe task_name [] = ok []
  load_sources copy_exe task_name (path ∷ paths) = do
    source ← solution_source copy_exe task_name path
    sources ← load_sources copy_exe task_name paths
    ok (source ∷ sources)

  unfoldable pub get_task_solutions : Bool → String → List String → Result (List SourceFile)
  unfolding load_sources get_solutions
  get_task_solutions copy_exe task_name filters =
      load_sources copy_exe task_name (get_solutions w m filters "solutions/" [])
