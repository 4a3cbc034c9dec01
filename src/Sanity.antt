-- ===== src/Sanity.antt =====
-- The checks of a task beside its evaluation: python/sanity_checks/ioi.py.
pub mod Statement
pub mod Listed
pub mod Samples
mod Tests
use task_maker.Prelude.{
  ℕ, suc, ◌+◌, String, ◌+s◌, Bool, true, false, not, ◌&&◌, ◌||◌, Option, none, some, List, [], ◌∷◌,
  ◌++◌, Dict, values, lookup, string_eq, ◌==◌, any, map, if◌then◌else◌,
}
use task_maker.Floats.{Floats, in_unit, sum_from}
use task_maker.Remote.{ExecutionResult, is_success}
use task_maker.Sources.{World, Language, LanguageManager, SourceFile, GraderInfo}
use task_maker.Formats.{Subtask}
use task_maker.Formats.Files.{list_files}
use task_maker.Ui.{UiInterface, add_warning, add_error}

-- What the checks ask of the file system beside `World`: symbolic links, whether something stands at a
-- path (os.path.lexists), the files below a folder, what a link leads to, and `git ls-files`, none where
-- git cannot tell.
pub record Links : Type 0 where
  pub is_link : String → Bool
  pub lexists : String → Bool
  pub files_below : String → List String
  pub destination : String → String
  pub git_has_file : String → Option Bool

abbrev is_some : Option GraderInfo → Bool
is_some none = false
is_some (some g) = true

abbrev pub has_grader : List SourceFile → Bool
has_grader sources = any (λ s. is_some s.grader) sources

abbrev named : String → List Language → Bool
named name languages = any (λ l. l.name == name) languages

-- _get_languages: the languages of the solutions, each once. A set has an order of its own in Python.
unfoldable pub get_languages : List SourceFile → List Language
get_languages [] = []
get_languages (s ∷ sources) =
    let rest = get_languages sources in
    if named s.language.name rest then rest else s.language ∷ rest

-- language.source_extension
abbrev pub source_extension : Language → String
source_extension language = elim language.source_extensions [ [] ↦ "" | ext ∷ exts ↦ ext ]

module _ (w : World) (m : LanguageManager) (links : Links) where
  -- A warning for each of the elements of which the test holds.
  abbrev pub warn_each :
      {A : Type 0} → (A → Bool) → (A → String) → List A → UiInterface → UiInterface
  warn_each test message [] ui = ui
  warn_each test message (x ∷ xs) ui =
      warn_each test message xs (if test x then add_warning (message x) ui else ui)

  unfoldable pub check_graders :
      String → List Language → List SourceFile → UiInterface → UiInterface
  unfolding add_warning
  check_graders folder languages sources ui =
      if has_grader sources
      then warn_each (λ l. not (w.exists (folder +s ("grader" +s source_extension l))))
          (λ l. "Missing grader" +s (source_extension l +s (" in " +s (folder +s " folder"))))
          languages ui
      else ui

  abbrev template_of : String → Language → String
  template_of task_name l = task_name +s source_extension l

  abbrev pub check_templates : String → List SourceFile → UiInterface → UiInterface
  check_templates task_name sources ui =
      if has_grader sources
      then warn_each (λ l. not (w.exists ("att/" +s template_of task_name l)))
          (λ l. "Missing " +s (template_of task_name l +s " in att/ folder"))
          (get_languages sources) ui
      else ui

  abbrev pub sample_patterns : String → List String
  sample_patterns task_name =
      "att/input*.txt"
      ∷ "att/output*.txt"
      ∷ ("att/" +s (task_name +s ".input*.txt"))
      ∷ ("att/" +s (task_name +s ".output*.txt"))
      ∷ []

  -- if len(sample_files)
  abbrev pub check_any_sample : List String → UiInterface → UiInterface
  check_any_sample [] ui = ui
  check_any_sample (f ∷ files) ui = add_warning "No sample files provided" ui

  abbrev pub check_samples : List String → UiInterface → UiInterface
  check_samples files ui = check_any_sample files (
      warn_each (λ f. not (links.is_link f)) (λ f. "Sample file " +s (f +s " is not a symlink"))
        files ui)

  unfoldable pub check_att_folder : String → List SourceFile → UiInterface → UiInterface
  unfolding check_graders get_languages list_files add_warning
  check_att_folder task_name sources ui =
      check_samples (list_files w m (sample_patterns task_name) []) (
        check_templates task_name sources (check_graders "att/" (get_languages sources) sources ui))

  abbrev several : List String → Bool
  several (x ∷ y ∷ l) = true
  several _ = false

  unfoldable pub check_sol_folder : List SourceFile → UiInterface → UiInterface
  unfolding check_graders get_languages list_files add_warning
  check_sol_folder sources ui =
      let sols = list_files w m ("sol/solution.*" ∷ "sol/soluzione.*" ∷ []) [] in
      let graded = check_graders "sol/" (get_languages sources) sources ui in
      warn_each (λ f. not (links.is_link f))
        (λ f. "Official solution " +s (f +s " is not a symlink")) sols
        (if several sols
          then add_warning "More than one official solution found" graded
          else graded)

  abbrev pub broken_in : String → UiInterface → UiInterface
  broken_in folder =
      warn_each (λ f. links.is_link f && not (w.exists (links.destination f)))
        (λ f. "Broken symlink: " +s (f +s (" -> " +s links.destination f)))
        (links.files_below folder)

  -- check_symlinks
  unfoldable pub check_symlinks : UiInterface → UiInterface
  unfolding add_warning
  check_symlinks ui = broken_in "testo" (
      broken_in "statement" (
        broken_in "cor"
          (broken_in "check" (broken_in "gen" (broken_in "sol" (broken_in "att" ui))))))

module _ {F : Type 0} (fl : Floats F) where
  abbrev pub max_scores : Dict ℕ (Subtask F) → F
  max_scores subtasks = sum_from fl fl.zero (map (λ st. st.max_score) (values subtasks))

  unfoldable pub check_subtask_score_sum : Dict ℕ (Subtask F) → UiInterface → UiInterface
  unfolding add_warning
  check_subtask_score_sum subtasks ui =
      if fl.eq (max_scores subtasks) (fl.of_ℕ 100)
      then ui
      else add_warning "The sum of the subtask max scores is not 100" ui

  -- `scores` are the scores of the solutions that were tested.
  unfoldable pub check_solution_score :
      Option SourceFile → Dict ℕ (Subtask F) → Dict String F → UiInterface → UiInterface
  unfolding add_warning
  check_solution_score none subtasks scores ui = ui
  check_solution_score (some official) subtasks scores ui = elim (lookup official.name scores) [
    | none ↦ ui
    | some score ↦
        if fl.eq score (max_scores subtasks)
        then ui
        else add_warning
            ("The official solution " +s (official.name +s " does not score full score")) ui
  ]

  -- The callback of _setup_execution_callback
  unfoldable pub on_execution : String → ExecutionResult → UiInterface → UiInterface
  unfolding add_error
  on_execution message result ui = if is_success result.status then ui else add_error message ui

  abbrev pub judge : String → Option F → UiInterface → UiInterface
  judge message none ui = add_error (message +s ": invalid score: {}") ui
  judge message (some score) ui =
      if in_unit fl score then ui else add_error (message +s ": invalid score: {}") ui

  -- The callback of _setup_checker_callback, with the checker's output.
  unfoldable pub on_checker : String → Bool → ExecutionResult → String → UiInterface → UiInterface
  unfolding on_execution
  on_checker message custom result stdout ui =
      if custom
      then judge message (fl.parse stdout) (on_execution message result ui)
      else on_execution message result ui
