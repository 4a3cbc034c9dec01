-- ===== src/Cases.antt =====
-- The parser of gen/cases.gen: python/formats/tm_format.py. The variables of `parse_cases` are the
-- fields of `Parser`, its inner functions the operations.
pub mod Limits
pub mod Rows
pub mod Lines
pub mod Print
pub mod Numbers
pub mod Formed
pub mod Consecutive
pub mod Accepted
pub mod Reading
pub mod Tests
use task_maker.Prelude.{
  ℕ, suc, ◌-◌, String, ◌+s◌, Bool, true, false, not, Option, none, some, List, [], ◌∷◌, ◌++◌, map,
  Dict, lookup, has, insert, string_eq, ◌==◌, length, ltb, nat_beq, leb, if◌then◌else◌, Result, ok,
  err, ◌>>=◌, ◌>>◌, require, or_raise, value_error_at, type_error, index_error, join, strip,
}
use task_maker.Floats.{Floats}
use task_maker.Ioi.{ScoreMode}
use task_maker.Sources.{World, LanguageManager, Arch, from_file}
use task_maker.Formats.{Generator, Constraint, Subtask}

-- The number of the current subtask is one less than `st_count`: it starts at -1.
pub record Parser (F : Type 0) : Type 0 where
  pub subtasks : List (Subtask F)
  pub generators : Dict String Generator
  pub validators : Dict String Generator
  pub constraints : List (Constraint F)
  pub current_gen : Option Generator
  pub current_val : Option Generator
  pub default_gen : Option Generator
  pub default_val : Option Generator
  pub tc_num : ℕ
  pub st_count : ℕ
  pub task_default_gen : Option Generator
  pub task_default_val : Option Generator

-- What the parser reads of its surroundings, and the arguments of `parse_cases`.
pub record Setting : Type 0 where
  pub world : World
  pub languages : LanguageManager
  pub task_name : String
  pub copy_compiled : Bool

-- l[-1]
abbrev pub last {ℓ} : {A : Type ℓ} → List A → Option A
last [] = none
last (x ∷ []) = some x
last (x ∷ y ∷ l) = last (y ∷ l)

-- A change of the object l[-1].
abbrev pub change_last {ℓ} : {A : Type ℓ} → (A → A) → List A → List A
change_last f [] = []
change_last f (x ∷ []) = f x ∷ []
change_last f (x ∷ y ∷ l) = x ∷ change_last f (y ∷ l)

-- not l
abbrev pub is_nil {ℓ} : {A : Type ℓ} → List A → Bool
is_nil [] = true
is_nil (x ∷ l) = false

-- Generator(name, SourceFile.from_file(path, ...), spec)
unfoldable pub declared : Setting → String → String → String → List String → Result Generator
declared s bin name path spec = do
  source ←
      from_file s.world s.languages path s.task_name s.copy_compiled (bin +s name) Arch.default []
  ok (record { name = name; source_file = source; args_spec = some spec })

module _ {F : Type 0} (s : Setting) where
  -- The branch of `process_GEN` before the first subtask.
  abbrev pub declare_gen : ℕ → List String → Parser F → Result (Parser F)
  declare_gen lineno (name ∷ path ∷ spec) p = do
    require (not (has name p.generators))
        (value_error_at "Duplicate GEN definition at line %d" lineno)
    generator ← declared s "bin/gen_" name path spec
    let q = record p { generators = insert name generator p.generators }
    ok (
        if name == "default"
        then record q { default_gen = some generator; task_default_gen = some generator }
        else q)
  declare_gen lineno _ p = err (
      value_error_at
        "The GEN command needs al least 2 arguments: name path [args [args ...]] (line %d)" lineno)

  -- The message of a name that is not declared has one argument too few, a TypeError.
  abbrev pub choose_gen : ℕ → List String → Parser F → Result (Parser F)
  choose_gen lineno (name ∷ []) p = do
    generator ← or_raise (lookup name p.generators) type_error
    ok (record p { current_gen = some generator })
  choose_gen lineno _ p = err (
      value_error_at
        "The GEN command for overriding the generator needs only one parameter (line %d)" lineno)

  unfoldable pub process_gen : ℕ → List String → Parser F → Result (Parser F)
  process_gen lineno args p =
      if is_nil p.subtasks then declare_gen lineno args p else choose_gen lineno args p

  abbrev pub declare_val : ℕ → List String → Parser F → Result (Parser F)
  declare_val lineno (name ∷ path ∷ spec) p = do
    require (not (has name p.validators))
        (value_error_at "Duplicate VAL definition at line %d" lineno)
    validator ← declared s "bin/val_" name path spec
    let q = record p { validators = insert name validator p.validators }
    ok (
        if name == "default"
        then record q { default_val = some validator; task_default_val = some validator }
        else q)
  declare_val lineno _ p = err (
      value_error_at
        "The VAL command needs al least 2 arguments: name path [args [args ...]] (line %d)" lineno)

  abbrev pub choose_val : ℕ → List String → Parser F → Result (Parser F)
  choose_val lineno (name ∷ []) p = do
    validator ← or_raise (lookup name p.validators) type_error
    ok (record p { current_val = some validator })
  choose_val lineno _ p = err (
      value_error_at
        "The VAL command for overriding the validator needs only one parameter (line %d)" lineno)

  unfoldable pub process_val : ℕ → List String → Parser F → Result (Parser F)
  process_val lineno args p =
      if is_nil p.subtasks then declare_val lineno args p else choose_val lineno args p

module _ {F : Type 0} (fl : Floats F) where
  unfoldable pub process_subtask : ℕ → List String → Parser F → Result (Parser F)
  process_subtask lineno [] p =
      err (value_error_at "Invalid arguments to SUBTASK: max_score [name] (line %d)" lineno)
  process_subtask lineno (score ∷ name) p = do
    max_score ←
        or_raise (fl.parse score) (value_error_at "Invalid SUBTASK score '%s' (line %d)" lineno)
    ok (record p {
      subtasks =
          p.subtasks
          ++ record {
            name = join " " name;
            description = "";
            score_mode = ScoreMode.min;
            max_score = max_score;
            testcases = [];
            constraints = p.constraints;
          }
            ∷ [];
      st_count = suc p.st_count;
      current_gen = p.default_gen;
      current_val = p.default_val;
    })

unfoldable pub process_description : {F : Type 0} → ℕ → List String → Parser F → Result (Parser F)
process_description lineno args p = do
  require (not (is_nil p.subtasks))
      (value_error_at "Cannot DESCRIPTION without subtasks (line %d)" lineno)
  require (not (is_nil args)) (value_error_at "No description provided (line %s)" lineno)
  ok (record p {
    subtasks = change_last (λ st. record st { description = join " " args }) p.subtasks;
  })
