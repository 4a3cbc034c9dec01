-- ===== src/Ioi/Generation.antt =====
-- The generation, the validation and the solving of a testcase: the callbacks of `add_generation`,
-- `add_validation` and `add_solving` of IOIUIInterface.
use task_maker.Prelude.{
  ℕ, ◌+◌, ◌≡◌, refl, String, ◌+s◌, decimal, Bool, true, false, ◌&&◌, List, [], ◌∷◌, ◌++◌, length,
  length-append, if◌then◌else◌, Bool-cases, inl, inr, arith,
}
use task_maker.Remote.{ExecutionResult, is_success}
use task_maker.Ui.{UiInterface, add_error}
use task_maker.Ioi.{TestcaseGenerationStatus}

pub data Stage : Type 0 where
  generation validation solving : Stage

pub data StageEvent : Type 0 where
  started : Stage → StageEvent
  ended : Stage → ExecutionResult → StageEvent

-- The object `testcase_status` that the callbacks share, and the UI.
pub record Tracking : Type 0 where
  pub status : TestcaseGenerationStatus
  pub interface : UiInterface

abbrev running_status : Stage → TestcaseGenerationStatus
running_status generation = TestcaseGenerationStatus.generating
running_status validation = TestcaseGenerationStatus.validating
running_status solving = TestcaseGenerationStatus.solving

abbrev success_status : Stage → TestcaseGenerationStatus
success_status generation = TestcaseGenerationStatus.generated
success_status validation = TestcaseGenerationStatus.validated
success_status solving = TestcaseGenerationStatus.done

abbrev failure_text : Stage → String
failure_text generation = "Failed to generate testcase #"
failure_text validation = "Failed to validate testcase #"
failure_text solving = "Failed to generate output of testcase #"

unfoldable pub on_stage : ℕ → StageEvent → Tracking → Tracking
on_stage testcase (started stage) t = record t { status = running_status stage }
on_stage testcase (ended stage result) t =
    if is_success result.status then record t { status = success_status stage } else record t {
      status = TestcaseGenerationStatus.failure;
      interface = add_error (failure_text stage +s decimal testcase) t.interface;
    }

unfoldable pub run_stages : ℕ → List StageEvent → Tracking → Tracking
unfolding on_stage
run_stages testcase [] t = t
run_stages testcase (event ∷ events) t = run_stages testcase events (on_stage testcase event t)

-- The stages in their order; what follows a failed one is skipped, with no callback.
abbrev pub pipeline : List (Stage × ExecutionResult) → List StageEvent
pipeline [] = []
pipeline ((stage, result) ∷ stages) =
    let rest = pipeline stages in
    started stage ∷ ended stage result ∷ (if is_success result.status then rest else [])

abbrev pub all_succeed : List (Stage × ExecutionResult) → Bool
all_succeed [] = true
all_succeed ((stage, result) ∷ stages) = is_success result.status && all_succeed stages

abbrev pub final_status : Bool → TestcaseGenerationStatus
final_status true = TestcaseGenerationStatus.done
final_status false = TestcaseGenerationStatus.failure

abbrev pub new_errors : Bool → ℕ
new_errors true = 0
new_errors false = 1

-- When stages of a testcase run one after the other, the last of them the solving, and those after a
-- failed one are skipped, the testcase is done exactly where all succeeded and otherwise failed, with
-- no new error in the first case and one in the second.
pub run_stages-pipeline :
    (testcase : ℕ) (stages : List (Stage × ExecutionResult)) (result : ExecutionResult)
    (t : Tracking)
    → ((run_stages testcase (pipeline (stages ++ (solving, result) ∷ [])) t).status
        ≡ final_status (all_succeed (stages ++ (solving, result) ∷ [])))
      × (length
            (run_stages testcase (pipeline (stages ++ (solving, result) ∷ [])) t).interface.errors
          ≡ length t.interface.errors + new_errors (all_succeed (stages ++ (solving, result) ∷ [])))
unfolding run_stages on_stage add_error
run_stages-pipeline testcase [] result t = elim (Bool-cases (is_success result.status)) [
  | inl e ↦ rw (e, run_stages, on_stage) (refl, omega arith)
  | inr e ↦ rw (e, run_stages, on_stage) (refl, length-append t.interface.errors _)
]
run_stages-pipeline testcase ((stage, r) ∷ stages) result t =
    elim (Bool-cases (is_success r.status)) [
      | inl e ↦
          rw (e, run_stages, on_stage)
            (run_stages-pipeline testcase stages result
              (record t { status = success_status stage }))
      | inr e ↦ rw (e, run_stages, on_stage) (refl, length-append t.interface.errors _)
    ]
