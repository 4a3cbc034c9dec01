-- ===== src/Ioi/Evaluation.antt =====
-- python/uis/ioi.py: a new SolutionStatus, and the callbacks that IOIUIInterface binds to the
-- evaluations and to the checking of a solution on a testcase.
use task_maker.Prelude.{
  ℕ, ◌-◌, String, Bool, true, false, not, ◌&&◌, none, List, [], ◌∷◌, replicate, Dict, insert,
  nat_eq, if◌then◌else◌,
}
use task_maker.Prelude.Execs.{Exec, pure, ◌>>◌}
use task_maker.Floats.{Floats}
use task_maker.Remote.{ExecutionResult}
use task_maker.Ui.{SignalNames, UiInterface}
use task_maker.Ioi.{
  TestcaseSolutionInfo, TestcaseSolutionStatus, SubtaskSolutionResult, SubtaskScoring,
  SolutionStatus, Session,
}
use task_maker.Ioi.Scoring.{put_case, with_case}
use task_maker.Ioi.Updates.{update_eval_result, update_default_check_result}
use task_maker.Ioi.Custom.{update_custom_check_result}

-- dict((st_num, f(testcases)) for st_num, testcases in subtasks.items())
abbrev pub for_subtasks {ℓ} : {V : Type ℓ} → (List ℕ → V) → Dict ℕ (List ℕ) → Dict ℕ V
for_subtasks f [] = []
for_subtasks f ((st, testcases) ∷ d) = (st, f testcases) ∷ for_subtasks f d

module _ {F : Type 0} (fl : Floats F) where
  abbrev pub new_info : TestcaseSolutionInfo F
  new_info = record {
    status = TestcaseSolutionStatus.waiting;
    result = [];
    score = fl.zero;
    message = "Waiting...";
    checker_outcome = "Waiting...";
    checked = false;
    checker_result = none;
  }

  -- for tc_num in subtask: ...[tc_num] = TestcaseSolutionInfo()
  unfoldable pub new_testcases :
      List ℕ → Dict ℕ (TestcaseSolutionInfo F) → Dict ℕ (TestcaseSolutionInfo F)
  new_testcases [] d = d
  new_testcases (tc ∷ l) d = new_testcases l (insert tc new_info d)

  -- SolutionStatus(source_file, task, interface, subtasks)
  unfoldable pub new_status :
      String → Dict ℕ (SubtaskScoring F) → Dict ℕ (List ℕ) → SolutionStatus F
  unfolding new_testcases
  new_status name scoring subtasks = record {
    name = name;
    subtasks = scoring;
    score = fl.zero;
    subtask_scores = for_subtasks (λ _. fl.zero) subtasks;
    subtask_results = for_subtasks (λ _. SubtaskSolutionResult.waiting) subtasks;
    testcase_results = for_subtasks (λ testcases. new_testcases testcases []) subtasks;
  }

  -- A new status in a session, before any outcome has been printed.
  abbrev pub new_session :
      String → Dict ℕ (SubtaskScoring F) → Dict ℕ (List ℕ) → UiInterface → Session F
  new_session name scoring subtasks ui = record {
    solution = new_status name scoring subtasks;
    interface = ui;
    outcomes = [];
  }

-- The variables that the callbacks of one add_evaluate_solution share. `num` is the loop's own
-- variable: every callback reads it after the loop, when it is the number of the last evaluation.
pub record Closure : Type 0 where
  pub started : Bool
  pub skipped : Bool
  pub num : ℕ

-- What happens to one of the evaluations.
pub data EvaluationEvent : Type 0 where
  start skip : EvaluationEvent
  done : ExecutionResult → EvaluationEvent

-- What the callback of an event assigns to the shared variables.
unfoldable pub after : EvaluationEvent → Closure → Closure
after start c = if not c.started && not c.skipped then record c { started = true } else c
after (done result) c = c
after skip c = record c { skipped = true }

module _ (names : SignalNames) {F : Type 0} (fl : Floats F) (st tc : ℕ) where
  -- The part of add_evaluate_solution that runs at once, for a list of `count` evaluations.
  unfoldable pub add_evaluate_solution : ℕ → Exec (Session F) Closure
  unfolding with_case put_case
  add_evaluate_solution count = do
    with_case fl st tc λ info. put_case fl st tc (record info { result = replicate count none })
    pure (record { started = false; skipped = false; num = count - 1 })

  abbrev pub set_status : TestcaseSolutionStatus → Exec (Session F) Unit
  set_status status = with_case fl st tc λ info. put_case fl st tc (record info { status = status })

  unfoldable pub on_evaluation : EvaluationEvent → Closure → Exec (Session F) Unit
  unfolding with_case put_case update_eval_result
  on_evaluation start c =
      if not c.started && not c.skipped then set_status TestcaseSolutionStatus.solving else pure tt
  on_evaluation (done result) c = update_eval_result names fl st tc result c.num
  on_evaluation skip c = set_status TestcaseSolutionStatus.skipped

  -- An exception in a callback ends the run.
  unfoldable pub run_evaluations : List EvaluationEvent → Closure → Exec (Session F) Unit
  unfolding on_evaluation
  run_evaluations [] c = pure tt
  run_evaluations (e ∷ es) c = do on_evaluation e c; run_evaluations es (after e c)

-- The updates of a solution's status that the callbacks make, in the order in which they come.
pub data Update : Type 0 where
  evaluated : ExecutionResult → ℕ → Update
  compared : ExecutionResult → Update
  checked : ExecutionResult → String → String → Update

module _ (names : SignalNames) {F : Type 0} (fl : Floats F) where
  unfoldable pub update : ℕ → ℕ → Update → Exec (Session F) Unit
  update st tc (evaluated result num) = update_eval_result names fl st tc result num
  update st tc (compared result) = update_default_check_result names fl st tc result
  update st tc (checked result stdout stderr) =
      update_custom_check_result names fl st tc result stdout stderr

  -- Each update starts from what the one before it left, also where that raised.
  unfoldable pub update_all : List (ℕ × ℕ × Update) → Session F → Session F
  unfolding update
  update_all [] s = s
  update_all ((st, tc, u) ∷ us) s = update_all us (update st tc u s).1
