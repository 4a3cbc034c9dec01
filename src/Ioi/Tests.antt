-- ===== src/Ioi/Tests.antt =====
-- A solution on a task with two subtasks, scored in hundredths.
use task_maker.Prelude.{
  length, strip, decimal, ℕ, ◌≡◌, refl, true, false, none, some, List, [], ◌∷◌, Dict, lookup,
  insert, nat_eq, ok, arith, ◌↔◌, All,
}
use task_maker.Prelude.Execs.{◌>>=◌}
use task_maker.Floats.Cents.{cents, cents-IsFloat}
use task_maker.Remote.{ExecutionResult, success, return_code}
use task_maker.Ui.{SignalNames, UiInterface, add_error}
use task_maker.Ioi.{
  TestcaseGenerationStatus, TestcaseSolutionInfo, TestcaseSolutionStatus, SubtaskScoring,
  SubtaskSolutionResult, ScoreMode, Session,
}
use task_maker.Ioi.Scoring.{compute_st_score, find}
use task_maker.Ioi.Evaluation.{
  Update, compared, checked, update_all, new_info, new_session, new_status, start, done,
}
use task_maker.Ioi.Updates.{update_default_check_result}
use task_maker.Ioi.Custom.{update_custom_check_result}
use task_maker.Ioi.Invariant.{IsScored}
use task_maker.Ioi.Always.{update_all-IsScored}
use task_maker.Ioi.Outcome.{IsFull, compute_st_score-accepted}
use task_maker.Ioi.Generation.{
  Tracking, generation, validation, solving, run_stages, pipeline, run_stages-pipeline,
}
use task_maker.Ioi.Processes.{FirstMissing, track, track-FirstMissing}

abbrev no_names : SignalNames
no_names n = none

abbrev fine : ExecutionResult
fine = record { status = success; signal = 0; return_code = 0; error = ""; was_killed = false }

abbrev differs : ExecutionResult
differs = record {
  status = return_code;
  signal = 0;
  return_code = 1;
  error = "";
  was_killed = false;
}

abbrev scoring : Dict ℕ (SubtaskScoring ℕ)
scoring =
    (0, record { score_mode = ScoreMode.min; max_score = 4000 })
    ∷ (1, record { score_mode = ScoreMode.sum; max_score = 6000 })
    ∷ []

abbrev subtasks : Dict ℕ (List ℕ)
subtasks = (0, 0 ∷ 1 ∷ []) ∷ (1, 2 ∷ 3 ∷ []) ∷ []

abbrev ui : UiInterface
ui = record { non_solutions = []; solutions = []; warnings = []; errors = []; printed = [] }

abbrev updates : List (ℕ × ℕ × Update)
updates =
    (0, 0, compared fine)
    ∷ (0, 1, compared fine)
    ∷ (1, 2, compared fine)
    ∷ (1, 3, compared differs)
    ∷ []

abbrev fresh : Session ℕ
fresh = new_session cents "sol.cpp" scoring subtasks ui

-- 40 points for the first subtask and half of 60 for the second.
seventy_points : (update_all no_names cents updates fresh).solution.score ≡ 7000
unfolding update_all update_default_check_result new_status lookup insert ◌>>=◌
seventy_points = refl

-- A checker whose output is no number between 0 and 1 fails the testcase.
bad_score :
    (update_all no_names cents ((0, 0, checked fine "2" "") ∷ []) fresh).interface.errors
    ≡ "Invalid score '2' from checker at testcase #0 for solution sol.cpp" ∷ []
unfolding update_all update_custom_check_result new_status lookup insert add_error ◌>>=◌ strip
    decimal
bad_score = refl

update_all-IsScored_example : IsScored cents (update_all no_names cents updates fresh)
update_all-IsScored_example =
    update_all-IsScored cents cents-IsFloat no_names "sol.cpp" scoring subtasks ui updates
      ((refl, refl), ((refl, refl), tt)) (omega arith)

-- The second subtask with its testcases checked, before its score is computed.
abbrev checked_session : Session ℕ
checked_session = update_all no_names cents updates fresh

abbrev first : TestcaseSolutionInfo ℕ
first = record {
  status = TestcaseSolutionStatus.accepted;
  result = [];
  score = 100;
  message = "Output is correct";
  checker_outcome = "Output is correct";
  checked = true;
  checker_result = some fine;
}

abbrev second : TestcaseSolutionInfo ℕ
second = record first {
  status = TestcaseSolutionStatus.wrong_answer;
  score = 0;
  message = "Output is not correct";
  checker_outcome = "Output is not correct";
  checker_result = some differs;
}

found_testcases :
    lookup 1 checked_session.solution.testcase_results ≡ some ((2, first) ∷ (3, second) ∷ [])
unfolding update_all update_default_check_result new_status lookup insert ◌>>=◌
found_testcases = refl

found_subtask :
    lookup 1 checked_session.solution.subtasks
    ≡ some (record { score_mode = ScoreMode.sum; max_score = 6000 })
unfolding update_all update_default_check_result new_status lookup insert ◌>>=◌
found_subtask = refl

compute_st_score-accepted_example :
    ((compute_st_score cents 1 checked_session).0 ≡ ok tt)
    × ((lookup 1 (compute_st_score cents 1 checked_session).1.solution.subtask_results
          ≡ some SubtaskSolutionResult.accepted)
        ↔ All (IsFull cents) (100 ∷ 0 ∷ []))
compute_st_score-accepted_example =
    compute_st_score-accepted cents cents-IsFloat 1 2 checked_session first ((3, second) ∷ [])
      (record { score_mode = ScoreMode.sum; max_score = 6000 }) update_all-IsScored_example
      found_testcases refl found_subtask

new_testcase : find cents 0 1 fresh.solution.testcase_results ≡ some (new_info cents)
unfolding new_status lookup insert
new_testcase = refl

-- Both of two processes end well, and the testcase still waits for the first.
track-FirstMissing_example :
    FirstMissing no_names cents 0 1 false
      (track no_names cents 0 1 2 (start ∷ done fine ∷ done fine ∷ []) fresh).1
track-FirstMissing_example =
    track-FirstMissing no_names cents 0 1 0 (start ∷ done fine ∷ done fine ∷ []) fresh
      (new_info cents) new_testcase

-- A testcase that is not valid: no output is made of it.
abbrev waiting_testcase : Tracking
waiting_testcase = record { status = TestcaseGenerationStatus.waiting; interface = ui }

run_stages-pipeline_example :
    ((run_stages 4
        (pipeline ((generation, fine) ∷ (validation, differs) ∷ (solving, fine) ∷ []))
        waiting_testcase).status
      ≡ TestcaseGenerationStatus.failure)
    × (length
          (run_stages 4
            (pipeline ((generation, fine) ∷ (validation, differs) ∷ (solving, fine) ∷ []))
            waiting_testcase).interface.errors
        ≡ 1)
run_stages-pipeline_example =
    run_stages-pipeline 4 ((generation, fine) ∷ (validation, differs) ∷ []) fine waiting_testcase
