-- ===== src/Cases/Lines.antt =====
-- The main loop of `parse_cases`, and `get_task`.
use task_maker.Prelude.{
  ℕ, suc, String, starts_with, drop_chars, strip, is_empty, Option, none, some, List, [], ◌∷◌, map,
  Dict, string_eq, ◌==◌, if◌then◌else◌, Result, ok, err, ◌>>=◌, value_error, value_error_at,
}
use task_maker.Floats.{Floats}
use task_maker.Formats.{Generator, Numbers, Subtask}
use task_maker.Formats.Files.{get_generator, get_validator}
use task_maker.Cases.{
  Parser, Setting, declared, process_gen, process_val, process_subtask, process_description,
}
use task_maker.Cases.Limits.{process_constraint}
use task_maker.Cases.Rows.{process_copy, process_run, process_testcase}

-- The default that was found among the task's files.
abbrev guessed : Setting → String → Option String → Result (Option Generator)
guessed s bin none = ok none
guessed s bin (some path) = declared s bin "default" path [] >>= λ g. ok (some g)

module _ {F : Type 0} (s : Setting) where
  unfoldable pub new_parser : Result (Parser F)
  unfolding declared get_generator get_validator
  new_parser = do
    gen ← guessed s "bin/gen_" (get_generator s.world s.languages)
    val ← guessed s "bin/val_" (get_validator s.world s.languages)
    ok (record {
      subtasks = [];
      generators = [];
      validators = [];
      constraints = [];
      current_gen = none;
      current_val = none;
      default_gen = gen;
      default_val = val;
      tc_num = 0;
      st_count = 0;
      task_default_gen = gen;
      task_default_val = val;
    })

  module _ (fl : Floats F) (n : Numbers F) where
    unfoldable pub process_command : ℕ → List String → Parser F → Result (Parser F)
    unfolding process_gen process_val process_subtask process_description process_constraint
        process_copy process_run
    process_command lineno [] p = err (value_error "not enough values to unpack")
    process_command lineno (cmd ∷ args) p =
        if cmd == "GEN"
        then process_gen s lineno args p
        else if cmd == "VAL"
        then process_val s lineno args p
        else if cmd == "CONSTRAINT"
        then process_constraint fl n lineno args p
        else if cmd == "SUBTASK"
        then process_subtask fl lineno args p
        else if cmd == "DESCRIPTION"
        then process_description lineno args p
        else if cmd == "COPY"
        then process_copy lineno args p
        else if cmd == "RUN"
        then process_run fl n lineno args p
        else err (value_error_at "Unknown command '%s' in '%s' (line %d)" lineno)

    unfoldable pub process_line : ℕ → String → Parser F → Result (Parser F)
    unfolding process_command process_testcase
    process_line lineno line p =
        if is_empty line
        then ok p
        else if starts_with line "#"
        then ok p
        else if starts_with line ":"
        then (s.world.words (drop_chars 1 line) >>= λ words. process_command lineno words p)
        else (s.world.words line >>= λ args. process_testcase fl n lineno args p)

    unfoldable pub process_lines : ℕ → List String → Parser F → Result (Parser F)
    unfolding process_line
    process_lines lineno [] p = ok p
    process_lines lineno (line ∷ lines) p =
        process_line lineno line p >>= λ q. process_lines (suc lineno) lines q

    -- The subtasks, and the task's default generator and validator with the rest of the state.
    unfoldable pub parse_cases : List String → Result (Parser F)
    unfolding new_parser process_lines strip
    parse_cases gen = new_parser >>= λ p. process_lines 1 (map strip gen) p

-- for st_num, subtask in enumerate(subtasks)
abbrev enumerate : {A : Type 0} → ℕ → List A → Dict ℕ A
enumerate n [] = []
enumerate n (x ∷ l) = (n, x) ∷ enumerate (suc n) l

module _ {F : Type 0} (s : Setting) (fl : Floats F) (n : Numbers F) where
  -- The subtasks of `get_task`, from the lines of gen/cases.gen.
  unfoldable pub get_subtasks : List String → Result (Dict ℕ (Subtask F))
  unfolding parse_cases
  get_subtasks gen = parse_cases s fl n gen >>= λ p. ok (enumerate 0 p.subtasks)
