-- ===== src/Sanity/Statement.antt =====
-- The checks of the statement: python/sanity_checks/ioi.py.
use task_maker.Prelude.{
  ℕ, suc, ◌+◌, String, ◌+s◌, Bool, true, false, not, ◌&&◌, ◌||◌, nat_beq, Option, none, some, List,
  [], ◌∷◌, Dict, values, lookup, nat_eq, string_eq, length, if◌then◌else◌,
}
use task_maker.Floats.{Floats}
use task_maker.Sources.{World}
use task_maker.Formats.{Subtask}
use task_maker.Ui.{UiInterface, add_warning}
use task_maker.Sanity.{Links}

-- What the loop over the subtasks of a statement finds.
pub data Verdict : Type 0 where
  right wrong non_sequential : Verdict

abbrev pub worse : Bool → Verdict → Verdict
worse true v = v
worse false right = wrong
worse false v = v

abbrev statement_path : World → Links → Option String
statement_path w links =
    if links.lexists "statement/statement.pdf"
    then some "statement/statement.pdf"
    else if links.lexists "testo/testo.pdf"
    then some "testo/testo.pdf"
    else none

abbrev git_warning : Option Bool → String → UiInterface → UiInterface
git_warning (some false) path ui =
    add_warning ("The statement file " +s (path +s " is not known to git")) ui
git_warning _ path ui = ui

-- os.path.relpath of a path below the working directory is the path, which a broken link does not have.
unfoldable pub check_pdf_statement : World → Links → UiInterface → UiInterface
unfolding add_warning
check_pdf_statement w links ui = elim (statement_path w links) [
  | none ↦ add_warning "The statement file is missing" ui
  | some path ↦
      let told = git_warning (links.git_has_file path) path ui in
      if links.is_link path && not (w.exists path)
      then add_warning "The statement is a broken link" told
      else told
]

module _ {F : Type 0} (fl : Floats F) (subtasks : Dict ℕ (Subtask F)) where
  -- from_task and from_task.max_score == score
  abbrev pub has_score : Option (Subtask F) → ℕ → Bool
  has_score none score = false
  has_score (some st) score = fl.eq st.max_score (fl.of_ℕ score)

  -- The loop of check_oii_format over the numbers and the scores of the statement. `next` is last + 1;
  -- the numbers begin at `base`.
  unfoldable pub scan : ℕ → ℕ → List (ℕ × ℕ) → Verdict
  scan base next [] = right
  scan base next ((number, score) ∷ matches) =
      let rest = scan base (suc next) matches in
      if nat_beq number (next + base)
      then worse (has_score (lookup next subtasks) score) rest
      else non_sequential

  abbrev pub base_of : List (ℕ × ℕ) → ℕ
  base_of [] = 0
  base_of ((number, score) ∷ matches) = if nat_beq number 1 then 1 else 0

  abbrev pub oii_warning : String → Verdict → UiInterface → UiInterface
  oii_warning statement right ui = ui
  oii_warning statement wrong ui =
      add_warning
        ("The subtasks in the statement " +s (statement +s " don't match the task's ones")) ui
  oii_warning statement non_sequential ui =
      add_warning
        ("The subtasks in the statement " +s (statement +s " are non-sequentially numbered")) ui

  -- `matches` are the numbers of the regular expression's matches, written without leading zeros.
  unfoldable pub check_oii_format : String → List (ℕ × ℕ) → UiInterface → UiInterface
  unfolding scan add_warning
  check_oii_format statement matches ui =
      oii_warning statement (scan (base_of matches) 0 matches) ui

  -- A score of a statement is a string, which is never equal to a number.
  abbrev pub same_score : String → F → Bool
  same_score text score = false

  abbrev pub any_differs : List String → List (Subtask F) → Bool
  any_differs [] sts = false
  any_differs (text ∷ texts) [] = false
  any_differs (text ∷ texts) (st ∷ sts) =
      not (same_score text st.max_score) || any_differs texts sts

  unfoldable pub check_ois_format : String → List String → UiInterface → UiInterface
  unfolding add_warning
  check_ois_format statement [] ui = ui
  check_ois_format statement (text ∷ texts) ui =
      if not (nat_beq (length (text ∷ texts)) (length (values subtasks)))
        || any_differs (text ∷ texts) (values subtasks)
      then add_warning
          ("The subtasks in the statement " +s (statement +s " don't match the task's ones")) ui
      else ui

  -- A statement in LaTeX: its path, and the matches of the two regular expressions in it.
  abbrev pub Source : Type 0
  Source = String × List (ℕ × ℕ) × List String

  unfoldable pub check_tex_statement : List Source → UiInterface → UiInterface
  unfolding check_oii_format check_ois_format
  check_tex_statement [] ui = ui
  check_tex_statement ((path, oii, ois) ∷ statements) ui =
      check_tex_statement statements (check_ois_format path ois (check_oii_format path oii ui))

  unfoldable pub check_statement : World → Links → List Source → UiInterface → UiInterface
  unfolding check_pdf_statement check_tex_statement
  check_statement w links statements ui =
      check_tex_statement statements (check_pdf_statement w links ui)
