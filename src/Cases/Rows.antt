-- ===== src/Cases/Rows.antt =====
-- The commands that add testcases: `process_COPY`, `add_testcase`, `process_RUN`, `process_TESTCASE`.
use task_maker.Prelude.{
  ℕ, suc, ◌-◌, String, starts_with, Bool, true, not, Option, none, some, List, [], ◌∷◌, ◌++◌,
  lookup, insert, string_eq, nat_eq, ◌==◌, length, nat_beq, if◌then◌else◌, Result, ok, err, ◌>>=◌,
  ◌>>◌, require, or_raise, value_error_at, type_error, index_error,
}
use task_maker.Floats.{Floats}
use task_maker.Formats.{Generator, Constraint, TestCase, Subtask, Numbers, accept, new_testcase}
use task_maker.Formats.Variables.{parse_variable}
use task_maker.Cases.{Parser, last, change_last, is_nil}

-- subtasks[-1].testcases[tc_num] = testcase; tc_num += 1
unfoldable pub put_testcase : {F : Type 0} → TestCase → Parser F → Parser F
put_testcase testcase p = record p {
  subtasks =
      change_last (λ st. record st { testcases = insert p.tc_num testcase st.testcases })
        p.subtasks;
  tc_num = suc p.tc_num;
}

unfoldable pub process_copy : {F : Type 0} → ℕ → List String → Parser F → Result (Parser F)
unfolding put_testcase new_testcase
process_copy lineno (path ∷ []) p = do
  require (not (is_nil p.subtasks)) (value_error_at "Cannot COPY without subtasks (line %d)" lineno)
  val ← or_raise p.current_val (value_error_at "No VAL available (line %d)" lineno)
  testcase ← new_testcase none (some val) [] [] (some path) none p.tc_num
  ok (put_testcase testcase p)
process_copy lineno _ p = do
  require (not (is_nil p.subtasks)) (value_error_at "Cannot COPY without subtasks (line %d)" lineno)
  err (value_error_at "Invalid number of arguments to COPY (line %d)" lineno)

-- testcase.generator_args[index] = value, where `args` is the same list
abbrev keep_arg : TestCase → List String → TestCase
keep_arg testcase args = record testcase { generator_args = args }

module _ {F : Type 0} (fl : Floats F) (n : Numbers F) where
  abbrev pub meets : String → String → Constraint F → Bool
  meets name value c = elim (fl.parse value) [
    | none ↦ true
    | some x ↦ if name == c.name then accept fl c x else true
  ]

  -- The innermost loop of `add_testcase`.
  unfoldable pub check_value : ℕ → String → String → List (Constraint F) → Result (Unit {0})
  unfolding accept
  check_value lineno name value [] = ok tt
  check_value lineno name value (c ∷ cs) = do
    require (meets name value c)
        (value_error_at "Constraint not met: %s when %s=%f (line %d)" lineno)
    check_value lineno name value cs

  abbrev pub resolve : String → TestCase → Subtask F → ℕ → ℕ → Result String
  resolve value testcase subtask tc_num st_num =
      if starts_with value "$"
      then parse_variable fl n value testcase subtask tc_num st_num
      else ok value

  -- The loop over the parameters; `done` are the arguments before them, as they were replaced.
  unfoldable pub match_params :
      ℕ → Subtask F → ℕ → ℕ → List String → List String → List String → TestCase → Result TestCase
  unfolding check_value
  match_params lineno subtask tc_num st_num done (name ∷ spec) (arg ∷ args) testcase = do
    value ← resolve arg testcase subtask tc_num st_num
    check_value lineno name value subtask.constraints
    match_params lineno subtask tc_num st_num (done ++ value ∷ []) spec args (record testcase {
      generator_args = done ++ value ∷ args;
      matched_params = insert name value testcase.matched_params;
    })
  match_params lineno subtask tc_num st_num done _ _ testcase = ok testcase

  -- A generator without a specification takes any arguments.
  abbrev pub with_params :
      ℕ → Option (List String) → List String → Subtask F → ℕ → ℕ → TestCase → Result TestCase
  with_params lineno none args subtask tc_num st_num testcase = ok testcase
  with_params lineno (some []) args subtask tc_num st_num testcase = ok testcase
  with_params lineno (some (name ∷ spec)) args subtask tc_num st_num testcase = do
    require (nat_beq (length (name ∷ spec)) (length args))
        (value_error_at "Number of params mismatch the definition (line %d)" lineno)
    match_params lineno subtask tc_num st_num [] (name ∷ spec) args testcase

  unfoldable pub add_testcase :
      ℕ → List String → Generator → Option Generator → Parser F → Result (Parser F)
  unfolding new_testcase match_params put_testcase
  add_testcase lineno args generator validator p = do
    testcase ← new_testcase (some generator) validator args [] none none p.tc_num
    subtask ← or_raise (last p.subtasks) index_error
    filled ← with_params lineno generator.args_spec args subtask p.tc_num (p.st_count - 1) testcase
    ok (put_testcase filled p)

  -- Whether there is a validator is not tested here.
  unfoldable pub process_run : ℕ → List String → Parser F → Result (Parser F)
  unfolding add_testcase
  process_run lineno args p = do
    require (not (is_nil p.subtasks))
        (value_error_at "Cannot RUN without subtasks (line %d)" lineno)
    (name, rest) ← elim args [
      | [] ↦ err (value_error_at "RUN needs al least an argument (line %d)" lineno)
      | name ∷ rest ↦ ok (name, rest)
    ]
    generator ← or_raise (lookup name p.generators) type_error
    add_testcase lineno rest generator p.current_val p

  unfoldable pub process_testcase : ℕ → List String → Parser F → Result (Parser F)
  unfolding add_testcase
  process_testcase lineno args p = do
    require (not (is_nil p.subtasks))
        (value_error_at "Cannot add a testcase  without subtasks (line %d)" lineno)
    gen ← or_raise p.current_gen (value_error_at "No GEN available (line %d)" lineno)
    val ← or_raise p.current_val (value_error_at "No VAL available (line %d)" lineno)
    add_testcase lineno args gen (some val) p
