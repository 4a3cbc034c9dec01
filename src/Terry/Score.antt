-- ===== src/Terry/Score.antt =====
-- The callbacks of the phases of a Terry solution, with `_compute_score`: python/uis/terry.py.
use task_maker.Prelude.{
  ℕ, String, Bool, true, false, Option, none, some, List, [], ◌∷◌, ◌++◌, if◌then◌else◌, Result,
}
use task_maker.Prelude.Execs.{Exec, pure, lift, modify, ◌>>=◌, ◌>>◌}
use task_maker.Floats.{Floats, in_unit}
use task_maker.Sources.{SourceFile}
use task_maker.Remote.{ExecutionResult, is_success}
use task_maker.Ui.{SignalNames, result_to_str, add_error}
use task_maker.Terry.{
  TestcaseStatus, missing, correct, wrong, failed, Phase, check, TerryUi, add_solution,
  add_generation, add_phase, info_of, update, begun, ended, complaint, failure_message,
}
use task_maker.Terry.Json.{Json, null, get_item, item_of, iterated, as_number, truthy, is_text}

-- A call of one of the two callbacks of a phase; the end has what `stdout_content` gives.
pub data Event : Type 0 where
  start : Event
  finish : ExecutionResult → Result String → Event

pub data Call : Type 0 where
  adding : SourceFile → Call
  generating_for : String → ℕ → Call
  following : Phase → String → Call
  calling : Phase → String → ℕ → Event → Call

-- `loads` is json.loads, none where it raises JSONDecodeError.
module _ {F : Type 0} (fl : Floats F) (names : SignalNames) (loads : String → Option (Json F)) where
  unfoldable pub judged : Json F → Json F → Exec (TerryUi F) TestcaseStatus
  judged val feedback = do
    status ← lift (item_of fl val "status")
    if is_text fl status "missing" then pure missing else do
      right ← lift (item_of fl feedback "correct")
      pure (if truthy fl right then correct else wrong)

  -- The loop over the pairs of cases.
  unfoldable pub judge_all : ℕ → List (Json F) → List (Json F) → Exec (TerryUi F) Unit
  unfolding judged
  judge_all i [] feedbacks = pure tt
  judge_all i (val ∷ vals) [] = pure tt
  judge_all i (val ∷ vals) (feedback ∷ feedbacks) = do
    status ← judged val feedback
    update fl i (λ info. record info { testcases_status = info.testcases_status ++ status ∷ [] })
    judge_all i vals feedbacks

  abbrev pub is_null : Json F → Bool
  is_null null = true
  is_null _ = false

  abbrev pub complain : ℕ → String → Exec (TerryUi F) Unit
  complain i message = update fl i (λ info. record info { message = message })

  abbrev pub cases_of : Json F → String → Exec (TerryUi F) (Json F)
  cases_of outcome key = do part ← lift (item_of fl outcome key); lift (item_of fl part "cases")

  -- What follows the check of the score.
  abbrev pub accepted : ℕ → Json F → F → Exec (TerryUi F) Unit
  accepted i outcome x = do
    update fl i (λ info. record info { score = x })
    validation ← cases_of outcome "validation"
    feedback ← cases_of outcome "feedback"
    vals ← lift (iterated fl validation)
    feedbacks ← lift (iterated fl feedback)
    judge_all i vals feedbacks

  abbrev pub scored : ℕ → Json F → Json F → Exec (TerryUi F) Unit
  scored i outcome score = if is_null score then complain i "Score is not in [0.0, 1.0]: {}" else do
    x ← lift (as_number fl score)
    if in_unit fl x then accepted i outcome x else complain i "Score is not in [0.0, 1.0]: {}"

  abbrev pub parsed : ℕ → Option (Json F) → Exec (TerryUi F) Unit
  parsed i none = complain i "Checker's output is not valid json: {}"
  parsed i (some outcome) = do score ← lift (get_item fl outcome "score"); scored i outcome score

  unfoldable pub compute_score : String → String → Exec (TerryUi F) Unit
  unfolding judge_all
  compute_score name check_outcome = do i ← info_of fl name; parsed i (loads check_outcome)

  abbrev pub on_success : Phase → ℕ → Exec (TerryUi F) Unit
  on_success phase i = update fl i (λ info. record info { status = ended phase })

  unfoldable pub on_failure : Phase → String → ℕ → ExecutionResult → Exec (TerryUi F) Unit
  unfolding add_error result_to_str
  on_failure phase name i result = do
    modify (λ t. record t { interface = add_error (complaint phase name) t.interface })
    update fl i (λ info. record info { status = failed })
    why ← lift (result_to_str names result)
    update fl i (λ info. record info { message = failure_message phase why })

  abbrev pub settled : Phase → String → ℕ → ExecutionResult → Exec (TerryUi F) Unit
  settled phase name i result =
      if is_success result.status then on_success phase i else on_failure phase name i result

  -- The checker's output is read whatever its result.
  unfoldable pub on_done :
      Phase → String → ℕ → ExecutionResult → Result String → Exec (TerryUi F) Unit
  unfolding compute_score on_failure
  on_done check name i result stdout = do
    outcome ← lift stdout
    compute_score name outcome
    settled check name i result
  on_done phase name i result stdout = settled phase name i result

  unfoldable pub on_event : Phase → String → ℕ → Event → Exec (TerryUi F) Unit
  unfolding on_done
  on_event phase name i start = update fl i (λ info. record info { status = begun phase })
  on_event phase name i (finish result stdout) = on_done phase name i result stdout

  -- What the program calls: the methods that follow a solution, and the callbacks, in any order.
  unfoldable pub call : Call → Exec (TerryUi F) Unit
  unfolding on_event
  call (adding source_file) = modify (add_solution fl source_file)
  call (generating_for name seed) = add_generation fl name seed
  call (following phase name) = add_phase fl phase name
  call (calling phase name i event) = on_event phase name i event

  -- A call that raises leaves what it wrote.
  unfoldable pub run_calls : List Call → TerryUi F → TerryUi F
  unfolding call
  run_calls [] t = t
  run_calls (c ∷ calls) t = run_calls calls (call c t).1
