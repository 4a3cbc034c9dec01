-- ===== src/Formats.antt =====
-- What the task formats share: python/formats/__init__.py.
pub mod Variables
pub mod Files
pub mod Interval
use task_maker.Prelude.{
  ℕ, String, ◌+s◌, decimal, ◌≡◌, Bool, true, false, not, ◌&&◌, Option, none, some, List, [], ◌∷◌,
  Dict, if◌then◌else◌, Result, ok, err, value_error, is_empty,
}
use task_maker.Floats.{Floats}
use task_maker.Ioi.{ScoreMode}
use task_maker.Sources.{SourceFile, Dependency}

-- The bounds of a task's variable, a float each.
pub record Constraint (F : Type 0) : Type 0 where
  pub name : String
  pub lower_bound : Option F
  pub upper_bound : Option F
  pub more_or_equal : Bool
  pub less_or_equal : Bool

-- A generator or a validator: a program with the names of its parameters.
pub record Generator : Type 0 where
  pub name : String
  pub source_file : SourceFile
  pub args_spec : Option (List String)

pub record TestCase : Type 0 where
  pub generator : Option Generator
  pub validator : Option Generator
  pub generator_args : List String
  pub extra_deps : List Dependency
  pub input_file : Option String
  pub output_file : Option String
  pub write_input_to : String
  pub write_output_to : String
  pub matched_params : Dict String String

pub record Subtask (F : Type 0) : Type 0 where
  pub name : String
  pub description : String
  pub score_mode : ScoreMode
  pub max_score : F
  pub testcases : Dict ℕ TestCase
  pub constraints : List (Constraint F)

unfoldable pub get_write_input_file : ℕ → String
get_write_input_file tc_num = "input/input" +s (decimal tc_num +s ".txt")

unfoldable pub get_write_output_file : ℕ → String
get_write_output_file tc_num = "output/output" +s (decimal tc_num +s ".txt")

-- bool(generator) and bool(input_file)
abbrev pub given : Option Generator → Bool
given none = false
given (some g) = true

abbrev pub named : Option String → Bool
named none = false
named (some s) = not (is_empty s)

abbrev pub agree : Bool → Bool → Bool
agree true b = b
agree false b = not b

-- TestCase(...): the check that one of generator and input file is there
unfoldable pub new_testcase :
    Option Generator
    → Option Generator
    → List String
    → List Dependency
    → Option String
    → Option String
    → ℕ
    → Result TestCase
unfolding get_write_input_file get_write_output_file
new_testcase generator validator generator_args extra_deps input_file output_file tc_num =
    if agree (given generator) (named input_file)
    then err (value_error "Cannot have both generator and static input")
    else ok (record {
      generator = generator;
      validator = validator;
      generator_args = generator_args;
      extra_deps = extra_deps;
      input_file = input_file;
      output_file = output_file;
      write_input_to = get_write_input_file tc_num;
      write_output_to = get_write_output_file tc_num;
      matched_params = [];
    })

-- What the program does with floats beyond `Floats`: subtraction, the bounds 10 ** 19 and
-- -10 ** 19, and text. `int_text` is str(int(x)), where int raises nothing.
pub record Numbers (F : Type 0) : Type 0 where
  pub sub : F → F → F
  pub huge : F
  pub minus_huge : F
  pub str : F → String
  pub int_text : F → Option String
  pub is_integer : F → Bool

module _ {F : Type 0} (fl : Floats F) where
  -- Constraint.accept: the four tests that return False
  unfoldable pub accept : Constraint F → F → Bool
  accept c x =
      elim c.lower_bound [
        | none ↦ true
        | some l ↦ if c.more_or_equal then not (fl.lt x l) else not (fl.le x l)
      ]
      && elim c.upper_bound [
        | none ↦ true
        | some u ↦ if c.less_or_equal then not (fl.lt u x) else not (fl.le u x)
      ]

  abbrev sign : Bool → String
  sign true = " <= "
  sign false = " < "

  -- Constraint.__str__
  unfoldable pub constraint_text : Numbers F → Constraint F → String
  constraint_text n c =
      elim c.lower_bound [ none ↦ "" | some l ↦ n.str l +s sign c.more_or_equal ]
      +s (c.name +s elim c.upper_bound [ none ↦ "" | some u ↦ sign c.less_or_equal +s n.str u ])
