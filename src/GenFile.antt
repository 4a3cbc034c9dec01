-- ===== src/GenFile.antt =====
-- The older task format: gen/GEN and task.yaml, python/formats/ioi_format/parsing.py.
pub mod Numbers
mod Tests
use task_maker.Prelude.{
  ℕ, zero, suc, ◌-◌, String, ◌+s◌, decimal, strip, starts_with, drop_chars, before, is_empty, Bool,
  true, false, not, ◌&&◌, Option, none, some, List, [], ◌∷◌, ◌++◌, Dict, lookup, insert, nat_eq,
  length, nat_beq, if◌then◌else◌, Result, ok, err, ◌>>=◌, or_raise, value_error, runtime_error,
  key_error,
}
use task_maker.Floats.{Floats}
use task_maker.Ioi.{ScoreMode}
use task_maker.Sources.{Arch, from_file, sanitize_command}
use task_maker.Formats.{Generator, TestCase, Subtask, new_testcase}
use task_maker.Formats.Files.{get_generator, get_validator}
use task_maker.Cases.{Setting, is_nil}

-- The local variables of `gen_testcases`, and the warnings of the task. The number of the current
-- subtask is one less than `st_count`: it starts at -1.
pub record Reader (F : Type 0) : Type 0 where
  pub subtasks : Dict ℕ (Subtask F)
  pub current_testcases : Dict ℕ TestCase
  pub st_count : ℕ
  pub testcase_num : ℕ
  pub current_score : F
  pub warnings : List String

module _ {F : Type 0} where
  abbrev create_warnings : Reader F → ℕ → List String
  create_warnings r n =
      if is_nil r.current_testcases
      then r.warnings ++ ("Subtask " +s (decimal n +s " has no subtasks")) ∷ []
      else r.warnings

  abbrev pub create_at : ℕ → Reader F → Reader F
  create_at zero r = r
  create_at (suc n) r = record r {
    subtasks =
        insert n
          (record {
            name = "";
            description = "";
            score_mode = ScoreMode.min;
            max_score = r.current_score;
            testcases = r.current_testcases;
            constraints = [];
          })
          r.subtasks;
    warnings = create_warnings r n;
  }

  -- A negative number is no subtask.
  unfoldable pub create_subtask : Reader F → Reader F
  create_subtask r = create_at r.st_count r

  abbrev pub put_current : TestCase → Reader F → Reader F
  put_current t r = record r {
    current_testcases = insert r.testcase_num t r.current_testcases;
    testcase_num = suc r.testcase_num;
  }

  -- A testcase before the first subtask begins subtask 0.
  abbrev pub ensure_subtask : Reader F → Reader F
  ensure_subtask r = record r { st_count = if nat_beq r.st_count 0 then 1 else r.st_count }

module _ {F : Type 0} (s : Setting) (fl : Floats F) (generator validator : Generator) where
  abbrev pub open_subtask : F → Reader F → Reader F
  open_subtask score r = record (create_subtask r) {
    st_count = suc r.st_count;
    current_testcases = [];
    current_score = score;
  }

  abbrev pub read_copy : String → Reader F → Result (Reader F)
  read_copy path r =
      new_testcase none (some validator) [] [] (some path) none r.testcase_num >>= λ t.
      ok (put_current t r)

  abbrev pub read_args : String → Reader F → Result (Reader F)
  read_args line r = do
    args ← s.world.words line
    let (safe, deps) = sanitize_command s.world args
    t ← new_testcase (some generator) (some validator) safe deps none none r.testcase_num
    ok (put_current t (ensure_subtask r))

  -- One line of gen/GEN
  unfoldable pub read_line : String → Reader F → Result (Reader F)
  unfolding create_subtask new_testcase sanitize_command
  read_line line r =
      if starts_with line "#ST:"
      then (or_raise (fl.parse (strip (drop_chars 4 line)))
            (value_error "could not convert string to float")
          >>= λ score. ok (open_subtask score r))
      else if starts_with line "#COPY:"
      then read_copy (strip (drop_chars 6 line)) r
      else if is_empty (strip (before b'#' line))
      then ok r
      else read_args (strip (before b'#' line)) r

  unfoldable pub read_lines : List String → Reader F → Result (Reader F)
  unfolding read_line
  read_lines [] r = ok r
  read_lines (line ∷ lines) r = read_line line r >>= λ q. read_lines lines q

  -- The task without subtasks: one of 100 points.
  abbrev pub single : Dict ℕ (Subtask F) → Dict ℕ (Subtask F)
  single ((k, st) ∷ []) =
      if fl.eq st.max_score fl.zero
      then (k, record st { score_mode = ScoreMode.sum; max_score = fl.of_ℕ 100 }) ∷ []
      else (k, st) ∷ []
  single d = d

  abbrev pub new_reader : Reader F
  new_reader = record {
    subtasks = [];
    current_testcases = [];
    st_count = 0;
    testcase_num = 0;
    current_score = fl.zero;
    warnings = [];
  }

  -- `gen_testcases` from the loop on, with the lines of gen/GEN.
  unfoldable pub read_file : List String → Result (Reader F)
  unfolding read_lines create_subtask
  read_file lines = do
    r ← read_lines lines new_reader
    let q = create_subtask (ensure_subtask r)
    ok (record q { subtasks = single q.subtasks })

-- The loop over the numbers of the static files.
abbrev static_testcases : List ℕ → Dict ℕ TestCase → Result (Dict ℕ TestCase)
static_testcases [] d = ok d
static_testcases (num ∷ nums) d = do
  t ←
      new_testcase none none [] [] (some ("input/input" +s (decimal num +s ".txt")))
        (some ("output/output" +s (decimal num +s ".txt"))) num
  static_testcases nums (insert num t d)

module _ {F : Type 0} (s : Setting) (fl : Floats F) where
  -- `nums` are the sorted numbers in the names of the files input/input*.txt.
  unfoldable pub load_static_testcases : List ℕ → Result (Subtask F)
  unfolding new_testcase
  load_static_testcases [] = err (runtime_error "No generator and no input files found!")
  load_static_testcases (num ∷ nums) = do
    testcases ← static_testcases (num ∷ nums) []
    ok (record {
      name = "Static testcases";
      description = "Testcases imported without a generator";
      score_mode = ScoreMode.sum;
      max_score = fl.of_ℕ 100;
      testcases = testcases;
      constraints = [];
    })

  abbrev generated : String → List String → Result (Dict ℕ (Subtask F) × List String)
  generated path lines = do
    gen ←
        from_file s.world s.languages path s.task_name s.copy_compiled "bin/generator" Arch.default
          []
    val_path ← or_raise (get_validator s.world s.languages) (runtime_error "No validator found")
    val ←
        from_file s.world s.languages val_path s.task_name s.copy_compiled "bin/validator"
          Arch.default []
    r ←
        read_file s fl (record { name = "default"; source_file = gen; args_spec = none })
          (record { name = "default"; source_file = val; args_spec = none }) lines
    ok (r.subtasks, r.warnings)

  -- The subtasks and the new warnings of the task, from the lines of gen/GEN.
  unfoldable pub gen_testcases : List ℕ → List String → Result (Dict ℕ (Subtask F) × List String)
  unfolding get_generator get_validator from_file read_file load_static_testcases
  gen_testcases nums lines = elim (get_generator s.world s.languages) [
    | none ↦ load_static_testcases nums >>= λ st. ok ((0, st) ∷ [], [])
    | some path ↦ generated path lines
  ]
