-- ===== src/Cases/Accepted.antt =====
-- What `add_testcase` accepts.
use task_maker.Prelude.{ℕ, ◌≡◌, String, true, List, [], length, All}
use task_maker.Floats.{Floats}
use task_maker.Formats.{TestCase, Constraint, Numbers}
use task_maker.Cases.{Parser}
use task_maker.Cases.Rows.{meets, put_testcase}

module _ {F : Type 0} (fl : Floats F) (n : Numbers F) where
  -- Each matched parameter is within every constraint of its name, as far as it is a number.
  abbrev pub Within : List (Constraint F) → TestCase → Type 0
  Within cs t = All (λ kv. All (λ c. meets fl n kv.0 kv.1 c ≡ true) cs) t.matched_params

  -- As many arguments as parameters, and every parameter within the constraints.
  abbrev pub Filled : ℕ → List (Constraint F) → TestCase → Type 0
  Filled count cs t = (length t.generator_args ≡ count) × Within cs t

  Fresh : List String → TestCase → Type 0
  Fresh args t = (t.generator_args ≡ args) × (t.matched_params ≡ [])

  -- The parser after a testcase with `count` arguments, all within `cs`, was put into the last subtask.
  pub Added : ℕ → List (Constraint F) → Parser F → Parser F → Type 0
  Added count cs p q = (t : TestCase) × (q ≡ put_testcase t p) × Filled count cs t
