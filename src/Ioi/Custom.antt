-- ===== src/Ioi/Custom.antt =====
-- The custom checker of python/uis/ioi.py: CustomCheckerState, which waits for the checker's result and
-- output, and SolutionStatus.update_custom_check_result.
use task_maker.Prelude.{
  ℕ, String, Bool, true, not, ◌&&◌, Option, none, some, all, decimal, strip, ◌+s◌, is_empty,
  if◌then◌else◌,
}
use task_maker.Prelude.Execs.{Exec, pure, lift, modify, ◌>>=◌, ◌>>◌}
use task_maker.Floats.{Floats, in_unit}
use task_maker.Remote.{ExecutionResult, is_success}
use task_maker.Ui.{SignalNames, result_to_str, add_error}
use task_maker.Ioi.{TestcaseSolutionInfo, TestcaseSolutionStatus, Session}
use task_maker.Ioi.Scoring.{compute_st_score, put_case, with_case}
use task_maker.Ioi.Updates.{is_some, set_message}

-- `fired` counts the calls of the callback, which `callback` says whether there is.
pub record CustomCheckerState : Type 0 where
  pub result : Option ExecutionResult
  pub stdout : Option String
  pub stderr : Option String
  pub callback : Bool
  pub fired : ℕ

unfoldable pub check : CustomCheckerState → CustomCheckerState
check c =
    if is_some c.result && (is_some c.stdout && (is_some c.stderr && c.callback))
    then record c { fired = ℕ.suc c.fired }
    else c

unfoldable pub set_result : ExecutionResult → CustomCheckerState → CustomCheckerState
unfolding check
set_result result c = check (record c { result = some result })

unfoldable pub set_stdout : String → CustomCheckerState → CustomCheckerState
unfolding check
set_stdout stdout c = check (record c { stdout = some stdout })

unfoldable pub set_stderr : String → CustomCheckerState → CustomCheckerState
unfolding check
set_stderr stderr c = check (record c { stderr = some stderr })

unfoldable pub set_callback : CustomCheckerState → CustomCheckerState
unfolding check
set_callback c = check (record c { callback = true })

module _ {F : Type 0} (fl : Floats F) where
  -- The status and the outcome of a score between 0 and 1.
  unfoldable pub scored_status : F → TestcaseSolutionStatus
  scored_status score =
      if fl.eq score fl.one
      then TestcaseSolutionStatus.accepted
      else if fl.eq score fl.zero
      then TestcaseSolutionStatus.wrong_answer
      else TestcaseSolutionStatus.partial

  unfoldable pub scored_outcome : F → String
  scored_outcome score =
      if fl.eq score fl.one
      then "Output is correct"
      else if fl.eq score fl.zero
      then "Output is not correct"
      else "Output is partially correct"

module _ (names : SignalNames) {F : Type 0} (fl : Floats F) (st tc : ℕ) where
  abbrev pub change : (TestcaseSolutionInfo F → TestcaseSolutionInfo F) → Exec (Session F) Unit
  change f = with_case fl st tc λ info. put_case fl st tc (f info)

  -- self.interface.add_error(...)
  abbrev pub complain : String → String → String → Exec (Session F) Unit
  complain what link out = modify (λ s. record s {
    interface =
        add_error
          (what
            +s (out
                +s (link
                    +s (" checker at testcase #"
                        +s (decimal tc +s (" for solution " +s s.solution.name))))))
          s.interface;
  })

  abbrev pub failed_with : String → TestcaseSolutionInfo F → TestcaseSolutionInfo F
  failed_with outcome info = record info {
    status = TestcaseSolutionStatus.failed;
    checker_outcome = outcome;
  }

  -- The checker itself failed.
  unfoldable pub reject_checker : ExecutionResult → Exec (Session F) Unit
  unfolding set_message put_case with_case
  reject_checker result = do
    change (λ info. record info { status = TestcaseSolutionStatus.failed })
    text ← lift (result_to_str names result)
    change (λ info. record info { checker_outcome = "Failed to check: " +s text })
    set_message names fl st tc
    change (λ info. record info { checked = true })

  -- What it printed is no score.
  unfoldable pub reject_score : String → String → String → Exec (Session F) Unit
  unfolding set_message put_case with_case
  reject_score what link out = do
    change (failed_with ("Failed to check: invalid score: " +s out))
    set_message names fl st tc
    change (λ info. record info { checked = true })
    complain what link out

  unfoldable pub accept_score : F → String → String → Exec (Session F) Unit
  unfolding set_message put_case with_case compute_st_score scored_status scored_outcome
  accept_score score out stderr = do
    change (λ info. record info {
      score = score;
      status = scored_status fl score;
      checker_outcome = if is_empty out then scored_outcome fl score else strip stderr;
    })
    set_message names fl st tc
    change (λ info. record info { checked = all is_some info.result })
    compute_st_score fl st

  abbrev pub judge : Option F → String → String → Exec (Session F) Unit
  judge none out stderr = reject_score "Invalid output '" "' for" out
  judge (some score) out stderr =
      if not (in_unit fl score)
      then reject_score "Invalid score '" "' from" out
      else accept_score score out stderr

  unfoldable pub update_custom_check_result :
      ExecutionResult → String → String → Exec (Session F) Unit
  unfolding reject_checker reject_score accept_score
  update_custom_check_result result stdout stderr = do
    change (λ info. record info { checker_result = some result })
    with_case fl st tc λ info.
        if info.checked
        then pure tt
        else if not (is_success result.status)
        then reject_checker result
        else judge (fl.parse (strip stdout)) (strip stdout) stderr
