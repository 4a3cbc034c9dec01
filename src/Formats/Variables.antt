-- ===== src/Formats/Variables.antt =====
-- The variables in the arguments of generators and validators.
use task_maker.Prelude.{
  ℕ, String, decimal, starts_with, drop_chars, Option, none, some, List, [], ◌∷◌, lookup,
  if◌then◌else◌, Result, ok, err, ◌>>=◌, or_raise, value_error, ◌==◌, string_eq,
}
use task_maker.Floats.{Floats}
use task_maker.Formats.{Constraint, Generator, TestCase, Subtask, Numbers}

-- VALIDATION_INPUT_NAME
abbrev pub validation_input_name : String
validation_input_name = "tm_input_file"

module _ {F : Type 0} (fl : Floats F) (n : Numbers F) where
  -- int() raises OverflowError or ValueError on an infinity or a NaN.
  abbrev format_number : F → Result String
  format_number x = elim (n.int_text x) [
    | none ↦ err (value_error "cannot convert float to integer")
    | some t ↦ ok (if n.is_integer x then t else n.str x)
  ]

  -- `value or bound`: a zero counts as missing
  abbrev or_bound : Option F → F → F
  or_bound none bound = bound
  or_bound (some v) bound = if fl.eq v fl.zero then bound else v

  -- The loops over the constraints: `max` and `min` keep their first argument among equals.
  unfoldable pub lower_of : String → List (Constraint F) → Option F → Option F
  lower_of var [] value = value
  lower_of var (c ∷ cs) value = lower_of var cs (elim c.lower_bound [
    | none ↦ value
    | some l ↦
        if c.name == var
        then some (let v = or_bound value n.minus_huge in if fl.lt v l then l else v)
        else value
  ])

  unfoldable pub upper_of : String → List (Constraint F) → Option F → Option F
  upper_of var [] value = value
  upper_of var (c ∷ cs) value = upper_of var cs (elim c.upper_bound [
    | none ↦ value
    | some u ↦
        if c.name == var
        then some (let v = or_bound value n.huge in if fl.lt u v then u else v)
        else value
  ])

  unfoldable pub parse_variable : String → TestCase → Subtask F → ℕ → ℕ → Result String
  unfolding lower_of upper_of
  parse_variable arg testcase subtask tc_num st_num =
      let cmd = drop_chars 1 arg in
      if cmd == "ST_NUM"
      then ok (decimal st_num)
      else if cmd == "ST_NAME"
      then ok subtask.name
      else if cmd == "TC_NUM"
      then ok (decimal tc_num)
      else if cmd == "INPUT"
      then ok validation_input_name
      else if starts_with cmd "MIN_"
      then or_raise (lower_of (drop_chars 4 cmd) subtask.constraints none)
          (value_error "There are no constraints for the minimum of '%s'")
        >>= format_number
      else if starts_with cmd "MAX_"
      then or_raise (upper_of (drop_chars 4 cmd) subtask.constraints none)
          (value_error "There are no constraints for the maximum of '%s'")
        >>= format_number
      else or_raise (lookup cmd testcase.matched_params)
          (value_error "Cannot match variable '%s' in testcase %s")

  unfoldable pub substitute : List String → TestCase → Subtask F → ℕ → ℕ → Result (List String)
  unfolding parse_variable
  substitute [] testcase subtask tc_num st_num = ok []
  substitute (arg ∷ args) testcase subtask tc_num st_num = do
    value ←
        if starts_with arg "$" then parse_variable arg testcase subtask tc_num st_num else ok arg
    values ← substitute args testcase subtask tc_num st_num
    ok (value ∷ values)

  abbrev spec_of : Option (List String) → List String
  spec_of none = []
  spec_of (some l) = l

  -- Validator.get_args
  unfoldable pub get_args : Generator → TestCase → Subtask F → ℕ → ℕ → Result (List String)
  unfolding substitute
  get_args validator testcase subtask tc_num st_num = elim (spec_of validator.args_spec) [
    | [] ↦ ok (validation_input_name ∷ decimal st_num ∷ [])
    | arg ∷ args ↦ substitute (arg ∷ args) testcase subtask tc_num st_num
  ]
