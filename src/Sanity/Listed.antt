-- ===== src/Sanity/Listed.antt =====
-- When a statement agrees with its task: python/sanity_checks/ioi.py.
use task_maker.Prelude.{
  ℕ, suc, ◌+◌, ◌≡◌, refl, String, ◌+s◌, true, not, ◌||◌, nat_beq, List, [], ◌∷◌, ◌++◌, Dict, values,
  lookup, nat_eq, length, arith,
}
use task_maker.Floats.{Floats}
use task_maker.Formats.{Subtask}
use task_maker.Ui.{UiInterface, add_warning}
use task_maker.Sanity.Statement.{has_score, any_differs, check_ois_format}

module _ {F : Type 0} (fl : Floats F) (subtasks : Dict ℕ (Subtask F)) where
  -- The statement's subtasks are numbered `next`, `next` + 1, ..., from `base` on, and each has the
  -- score of the task's subtask of that number.
  abbrev pub Agrees : ℕ → ℕ → List (ℕ × ℕ) → Type 0
  Agrees base next [] = Unit
  Agrees base next ((number, score) ∷ matches) =
      (number ≡ next + base)
      × (has_score fl subtasks (lookup next subtasks) score ≡ true)
      × Agrees base (suc next) matches

  always :
      (texts : List String) (sts : List (Subtask F)) (text : String)
      → not (nat_beq (length (text ∷ texts)) (length sts))
          || any_differs fl subtasks (text ∷ texts) sts
        ≡ true
  always texts [] text = grind arith
  always texts (st ∷ sts) text = grind arith

  -- Whatever the scores, `check_ois_format` warns about every statement that has a score of a subtask,
  -- since it compares strings with numbers.
  pub check_ois_format-always :
      (statement text : String) (texts : List String) (ui : UiInterface)
      → (check_ois_format fl subtasks statement (text ∷ texts) ui).warnings
        ≡ ui.warnings
          ++ ("The subtasks in the statement " +s (statement +s " don't match the task's ones"))
            ∷ []
  unfolding check_ois_format add_warning
  check_ois_format-always statement text texts ui = rw (always texts (values subtasks) text) refl
