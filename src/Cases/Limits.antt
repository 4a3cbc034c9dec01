-- ===== src/Cases/Limits.antt =====
-- `process_CONSTRAINT`: the four forms of a CONSTRAINT command.
use task_maker.Prelude.{
  ℕ, String, Bool, true, false, not, Option, none, some, List, [], ◌∷◌, ◌++◌, string_eq, ◌==◌,
  nat_beq, if◌then◌else◌, Result, ok, err, ◌>>=◌, ◌>>◌, require, or_raise, value_error_at,
  index_error,
}
use Prim.Native.Char.{code}
use task_maker.Floats.{Floats}
use task_maker.Formats.{Constraint, Numbers}
use task_maker.Cases.{Parser, change_last, is_nil}

-- The name after the dollar; `word[0]` raises IndexError on an empty word.
abbrev pub variable : ℕ → String → Result String
variable lineno String.[] = err index_error
variable lineno (String.◌∷◌ c s) =
    if nat_beq (code c) b'$'
    then ok s
    else err (value_error_at "Expecting variable name in CONSTRAINT (line %d)" lineno)

-- The operators, as "<" or ">" with or without "=".
pub data Sign : Type 0 where
  less greater : Sign

abbrev pub sign : String → Option (Sign × Bool)
sign op =
    if op == "<"
    then some (less, false)
    else if op == "<="
    then some (less, true)
    else if op == ">"
    then some (greater, false)
    else if op == ">="
    then some (greater, true)
    else none

abbrev pub ascending : String → Option Bool
ascending op = if op == "<" then some false else if op == "<=" then some true else none

abbrev bad_format : {A : Type 0} → ℕ → Result A
bad_format lineno = err (value_error_at "Invalid format for CONSTRAINT (line %d)" lineno)

module _ {F : Type 0} (fl : Floats F) (n : Numbers F) where
  -- Case b, case d, and what is neither: the number stands on the right, if there is one.
  abbrev pub right_bound : ℕ → String → Sign → Bool → Option F → Result (Constraint F)
  right_bound lineno a sg or_equal none = bad_format lineno
  right_bound lineno a less or_equal (some bound) = do
    var ← variable lineno a
    ok (record {
      name = var;
      lower_bound = none;
      upper_bound = some bound;
      more_or_equal = false;
      less_or_equal = or_equal;
    })
  right_bound lineno a greater or_equal (some bound) = do
    var ← variable lineno a
    ok (record {
      name = var;
      lower_bound = some bound;
      upper_bound = none;
      more_or_equal = or_equal;
      less_or_equal = false;
    })

  -- Three words: case a where the first is a number, whatever the operator.
  abbrev pub left_bound : ℕ → String → Sign → Bool → String → Option F → Result (Constraint F)
  left_bound lineno a sg or_equal b none = right_bound lineno a sg or_equal (fl.parse b)
  left_bound lineno a sg or_equal b (some bound) = do
    var ← variable lineno b
    ok (record {
      name = var;
      lower_bound = some bound;
      upper_bound = none;
      more_or_equal = or_equal;
      less_or_equal = false;
    })

  unfoldable pub one_bound : ℕ → String → Sign → Bool → String → Result (Constraint F)
  one_bound lineno a sg or_equal b = left_bound lineno a sg or_equal b (fl.parse a)

  -- Case c
  abbrev between : ℕ → Bool → String → Bool → F → F → Result (Constraint F)
  between lineno more_or_equal b less_or_equal lower upper = do
    var ← variable lineno b
    let lowest_ok = if more_or_equal then lower else fl.add lower fl.one
    let hiest_ok = if less_or_equal then upper else n.sub upper fl.one
    require (not (fl.lt hiest_ok lowest_ok))
        (value_error_at "CONSTRAINT is always false (line %d)" lineno)
    ok (record {
      name = var;
      lower_bound = some lower;
      upper_bound = some upper;
      more_or_equal = more_or_equal;
      less_or_equal = less_or_equal;
    })

  unfoldable pub two_bounds : ℕ → String → Bool → String → Bool → String → Result (Constraint F)
  two_bounds lineno a more_or_equal b less_or_equal c = elim (fl.parse a) [
    | none ↦ bad_format lineno
    | some lower ↦ elim (fl.parse c) [
      | none ↦ bad_format lineno
      | some upper ↦ between lineno more_or_equal b less_or_equal lower upper
    ]
  ]

  unfoldable pub parse_constraint : ℕ → List String → Result (Constraint F)
  unfolding one_bound two_bounds
  parse_constraint lineno (a ∷ op ∷ b ∷ []) = do
    (sg, or_equal) ←
        or_raise (sign op) (value_error_at "Invalid operator passed to CONSTRAINT (line %d)" lineno)
    one_bound lineno a sg or_equal b
  parse_constraint lineno (a ∷ op ∷ b ∷ op2 ∷ c ∷ []) = do
    (sg, more_or_equal) ←
        or_raise (sign op) (value_error_at "Invalid operator passed to CONSTRAINT (line %d)" lineno)
    less_or_equal ←
        or_raise (ascending op2)
          (value_error_at "Invalid operator passed to CONSTRAINT (line %d)" lineno)
    two_bounds lineno a more_or_equal b less_or_equal c
  parse_constraint lineno _ =
      err (value_error_at "Invalid number of arguments passed to CONSTRAINT (line %d)" lineno)

  -- A constraint before the first subtask is one of all subtasks.
  abbrev pub add_constraint : Constraint F → Parser F → Parser F
  add_constraint c p =
      if is_nil p.subtasks then record p { constraints = p.constraints ++ c ∷ [] } else record p {
        subtasks =
            change_last (λ st. record st { constraints = st.constraints ++ c ∷ [] }) p.subtasks;
      }

  unfoldable pub process_constraint : ℕ → List String → Parser F → Result (Parser F)
  unfolding parse_constraint
  process_constraint lineno args p = do c ← parse_constraint lineno args; ok (add_constraint c p)
