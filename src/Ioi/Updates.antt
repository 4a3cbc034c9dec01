-- ===== src/Ioi/Updates.antt =====
-- The updates of a testcase of SolutionStatus in python/uis/ioi.py.
use task_maker.Prelude.{
  ℕ, String, Bool, true, false, not, Option, none, some, List, [], ◌∷◌, length, all, set, insert,
  nat_eq, Result, ok, err, index_error, attribute_error, join, ◌+s◌, ltb, if◌then◌else◌,
}
use task_maker.Prelude.Execs.{Exec, pure, lift, modify, throw, ◌>>=◌, ◌>>◌}
use task_maker.Floats.{Floats}
use task_maker.Remote.{ExecutionResult, ResultStatus, is_success}
use task_maker.Ui.{SignalNames, result_to_str}
use task_maker.Ioi.{TestcaseSolutionInfo, TestcaseSolutionStatus, SubtaskSolutionResult, Session}
use task_maker.Ioi.Scoring.{compute_st_score, put_case, with_case}

-- res, as a condition
abbrev pub is_some {ℓ} : {A : Type ℓ} → Option A → Bool
is_some none = false
is_some (some a) = true

-- all(res.status == ResultStatus.SUCCESS for res in result): a missing result has no status.
unfoldable pub all_success : List (Option ExecutionResult) → Result Bool
all_success [] = ok true
all_success (none ∷ l) = err attribute_error
all_success (some r ∷ l) =
    let rest = all_success l in if is_success r.status then rest else ok false

abbrev pub is_final : TestcaseSolutionStatus → Bool
is_final TestcaseSolutionStatus.accepted = true
is_final TestcaseSolutionStatus.partial = true
is_final TestcaseSolutionStatus.wrong_answer = true
is_final TestcaseSolutionStatus.failed = true
is_final _ = false

abbrev prepend : Result String → Result (List String) → Result (List String)
prepend (err e) _ = err e
prepend (ok s) (ok l) = ok (s ∷ l)
prepend (ok s) (err e) = err e

module _ {F : Type 0} (fl : Floats F) where
  -- What the default checker's result says of a testcase.
  abbrev pub default_outcome : ExecutionResult → TestcaseSolutionInfo F → TestcaseSolutionInfo F
  default_outcome r info = elim (r.status) [
    | ResultStatus.success ↦ record info {
      checker_result = some r;
      checked = true;
      status = TestcaseSolutionStatus.accepted;
      checker_outcome = "Output is correct";
      score = fl.one;
    }
    | ResultStatus.return_code ↦ record info {
      checker_result = some r;
      checked = true;
      status = TestcaseSolutionStatus.wrong_answer;
      checker_outcome = "Output is not correct";
      score = fl.zero;
    }
    | _ ↦ record info {
      checker_result = some r;
      checked = true;
      status = TestcaseSolutionStatus.failed;
      checker_outcome = "Internal error: " +s r.error;
    }
  ]

module _ (names : SignalNames) where
  -- map(result_to_str, result)
  unfoldable pub result_texts : List (Option ExecutionResult) → Result (List String)
  result_texts [] = ok []
  result_texts (none ∷ l) = err attribute_error
  result_texts (some r ∷ l) = prepend (result_to_str names r) (result_texts l)

  abbrev joined : Result (List String) → Result String
  joined (ok l) = ok (join " | " l)
  joined (err e) = err e

  abbrev message_of : Result Bool → String → List (Option ExecutionResult) → Result String
  message_of (ok true) outcome results = ok outcome
  message_of (ok false) outcome results = joined (result_texts results)
  message_of (err e) outcome results = err e

  module _ {F : Type 0} where
    unfoldable pub get_solution_message : TestcaseSolutionInfo F → Result String
    unfolding all_success result_texts
    get_solution_message info =
        message_of (all_success info.result) info.checker_outcome info.result

  module _ {F : Type 0} (fl : Floats F) (st tc : ℕ) where
    -- testcase_status.message = self._get_solution_message(testcase_status)
    unfoldable pub set_message : Exec (Session F) Unit
    unfolding get_solution_message put_case with_case
    set_message = with_case fl st tc λ info. do
      message ← lift (get_solution_message info)
      put_case fl st tc (record info { message = message })

    unfoldable pub update_eval_result_internal : Exec (Session F) Unit
    unfolding set_message compute_st_score
    update_eval_result_internal = with_case fl st tc λ info.
        if not (all is_some info.result) then pure tt else do
          good ← lift (all_success info.result)
          if good
              then if is_final info.status
                then pure tt
                else put_case fl st tc (record info { status = TestcaseSolutionStatus.solved })
              else (do
                put_case fl st tc
                    (record info { status = TestcaseSolutionStatus.failed; checked = true })
                compute_st_score fl st)
          set_message

    unfoldable pub update_eval_result : ExecutionResult → ℕ → Exec (Session F) Unit
    unfolding update_eval_result_internal
    update_eval_result result num = do
      modify (λ s. record s {
        solution = record (s.solution) {
          subtask_results = insert st SubtaskSolutionResult.running s.solution.subtask_results;
        };
      })
      with_case fl st tc λ info.
          if ltb num (length info.result)
          then put_case fl st tc (record info { result = set info.result num (some result) })
          else throw index_error
      update_eval_result_internal

    unfoldable pub update_default_check_result : ExecutionResult → Exec (Session F) Unit
    unfolding set_message compute_st_score
    update_default_check_result result = do
      with_case fl st tc λ info. put_case fl st tc (default_outcome fl result info)
      set_message
      compute_st_score fl st
