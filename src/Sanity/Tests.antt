-- ===== src/Sanity/Tests.antt =====
-- A task with two subtasks, a statement that lists them, and samples.
use task_maker.Prelude.{
  ℕ, ◌≡◌, ◌↔◌, refl, ◌+s◌, true, false, none, some, List, [], ◌∷◌, ◌++◌, Dict, length, lookup,
}
use task_maker.Remote.{ExecutionResult, ResultStatus, is_success}
use task_maker.Ui.{UiInterface}
use task_maker.Cases.Tests.{whole, subtask}
use task_maker.Formats.{Subtask}
use task_maker.Sanity.{Links, check_subtask_score_sum, on_checker}
use task_maker.Sanity.Statement.{check_oii_format, check_ois_format}
use task_maker.Sanity.Listed.{check_ois_format-always}
use task_maker.Sanity.Samples.{IsScore, on_checker-IsScore}

abbrev ui : UiInterface
ui = record { non_solutions = []; solutions = []; warnings = []; errors = []; printed = [] }

abbrev subtasks : Dict ℕ (Subtask ℕ)
subtasks = (0, subtask) ∷ (1, record subtask { max_score = 6000 }) ∷ []

abbrev matches : List (ℕ × ℕ)
matches = (1, 40) ∷ (2, 60) ∷ []

agrees : check_oii_format whole subtasks "english.tex" matches ui ≡ ui
unfolding check_oii_format lookup
agrees = refl

hundred : check_subtask_score_sum whole subtasks ui ≡ ui
unfolding check_subtask_score_sum
hundred = refl

check_ois_format-always_example :
    (check_ois_format whole subtasks "english.tex" ("40" ∷ "60" ∷ []) ui).warnings
    ≡ []
      ++ ("The subtasks in the statement " +s ("english.tex" +s " don't match the task's ones"))
        ∷ []
check_ois_format-always_example =
    check_ois_format-always whole subtasks "english.tex" "40" ("60" ∷ []) ui

abbrev links : Links
links = record {
  is_link = λ p. true;
  lexists = λ p. true;
  files_below = λ p. [];
  destination = λ p. p;
  git_has_file = λ p. none;
}

abbrev fine : ExecutionResult
fine = record {
  status = ResultStatus.success;
  signal = 0;
  return_code = 0;
  error = "";
  was_killed = false;
}

on_checker-IsScore_example :
    (length (on_checker whole "Checking sample output failed" true fine "1" ui).errors ≡ 0)
    ↔ ((is_success ResultStatus.success ≡ true) × (true ≡ true → IsScore whole (some 100)))
on_checker-IsScore_example =
    on_checker-IsScore whole "Checking sample output failed" true fine "1" ui
