-- ===== src/Ioi.antt =====
-- python/uis/ioi.py: the evaluation of the solutions of an IOI task.
pub mod Scoring
pub mod Updates
pub mod Custom
pub mod Range
pub mod Invariant
pub mod Updated
pub mod Evaluation
pub mod Always
mod Tests
pub mod Processes
pub mod Outcome
pub mod Generation
use task_maker.Prelude.{ℕ, String, Bool, true, false, Option, none, some, List, [], ◌∷◌, Dict}
use task_maker.Remote.{ExecutionResult}
use task_maker.Ui.{UiInterface}

pub data TestcaseGenerationStatus : Type 0 where
  waiting generating generated validating validated solving done failure : TestcaseGenerationStatus

pub data TestcaseSolutionStatus : Type 0 where
  waiting solving solved checking accepted wrong_answer partial failed skipped :
      TestcaseSolutionStatus

pub data SubtaskSolutionResult : Type 0 where
  waiting running accepted partial rejected : SubtaskSolutionResult

-- ScoreMode of python/formats/__init__.py
pub data ScoreMode : Type 0 where
  min max sum : ScoreMode

-- What the evaluation reads of a Subtask.
pub record SubtaskScoring (F : Type 0) : Type 0 where
  pub score_mode : ScoreMode
  pub max_score : F

pub record TestcaseSolutionInfo (F : Type 0) : Type 0 where
  pub status : TestcaseSolutionStatus
  pub result : List (Option ExecutionResult)
  pub score : F
  pub message : String
  pub checker_outcome : String
  pub checked : Bool
  pub checker_result : Option ExecutionResult

-- `subtasks` is `task.subtasks`, and `name` is `source_file.name`.
pub record SolutionStatus (F : Type 0) : Type 0 where
  pub name : String
  pub subtasks : Dict ℕ (SubtaskScoring F)
  pub score : F
  pub subtask_scores : Dict ℕ F
  pub subtask_results : Dict ℕ SubtaskSolutionResult
  pub testcase_results : Dict ℕ (Dict ℕ (TestcaseSolutionInfo F))

-- A line of UIPrinter.subtask_outcome.
pub record SubtaskOutcome (F : Type 0) : Type 0 where
  pub solution : String
  pub subtask : ℕ
  pub result : SubtaskSolutionResult
  pub score : F

-- A solution's status with the interface that its methods write to.
pub record Session (F : Type 0) : Type 0 where
  pub solution : SolutionStatus F
  pub interface : UiInterface
  pub outcomes : List (SubtaskOutcome F)
