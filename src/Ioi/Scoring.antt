-- ===== src/Ioi/Scoring.antt =====
-- SolutionStatus of python/uis/ioi.py: the methods that the callbacks of the executions call.
use task_maker.Prelude.{
  ℕ, Bool, not, Option, none, some, List, [], ◌∷◌, ◌++◌, map, length, all, Dict, values, lookup,
  insert, nat_eq, Result, ok, err, value_error, key_error, zero_division, if◌then◌else◌,
}
use task_maker.Prelude.Execs.{Exec, pure, lift, fetch, modify, ◌>>=◌}
use task_maker.Floats.{Floats, sum_from, min_from, max_from}
use task_maker.Ioi.{TestcaseSolutionInfo, SubtaskSolutionResult, ScoreMode, SubtaskScoring, Session}

-- The scores of the testcases of a subtask, combined by the score mode.
module _ {F : Type 0} (fl : Floats F) where
  unfoldable pub combine : ScoreMode → List F → Result F
  combine ScoreMode.min [] = err (value_error "min() arg is an empty sequence")
  combine ScoreMode.min (x ∷ l) = ok (min_from fl x l)
  combine ScoreMode.max [] = err (value_error "max() arg is an empty sequence")
  combine ScoreMode.max (x ∷ l) = ok (max_from fl x l)
  combine ScoreMode.sum [] = err zero_division
  combine ScoreMode.sum (x ∷ l) =
      ok (fl.div (sum_from fl fl.zero (x ∷ l)) (fl.of_ℕ (length (x ∷ l))))

  abbrev pub least : List F → F
  least [] = fl.zero
  least (x ∷ l) = min_from fl x l

  unfoldable pub classify : F → F → SubtaskSolutionResult
  classify smallest score =
      if fl.eq smallest fl.one
      then SubtaskSolutionResult.accepted
      else if fl.eq score fl.zero
      then SubtaskSolutionResult.rejected
      else SubtaskSolutionResult.partial

  -- The assignments of `_compute_st_score`, once the scores are combined.
  unfoldable pub record_score : ℕ → SubtaskScoring F → List F → F → Session F → Session F
  unfolding classify
  record_score st subtask scores base s =
      let score = fl.mul base subtask.max_score in
      let outcome = classify (least scores) score in
      let subtask_scores = insert st score s.solution.subtask_scores in
      record s {
        solution = record (s.solution) {
          subtask_scores = subtask_scores;
          score = sum_from fl fl.zero (values subtask_scores);
          subtask_results = insert st outcome s.solution.subtask_results;
        };
        outcomes =
            s.outcomes
            ++ record { solution = s.solution.name; subtask = st; result = outcome; score = score }
              ∷ [];
      }

  abbrev pub checked_all : Dict ℕ (TestcaseSolutionInfo F) → Bool
  checked_all testcases = all (λ t. t.checked) (values testcases)

  abbrev pub scores_of : Dict ℕ (TestcaseSolutionInfo F) → List F
  scores_of testcases = map (λ t. t.score) (values testcases)

  unfoldable pub compute_st_score : ℕ → Exec (Session F) Unit
  unfolding combine record_score
  compute_st_score st = do
    testcases ← fetch (λ s. lookup st s.solution.testcase_results) key_error
    if not (checked_all testcases) then pure tt else do
      subtask ← fetch (λ s. lookup st s.solution.subtasks) key_error
      base ← lift (combine subtask.score_mode (scores_of testcases))
      modify (record_score st subtask (scores_of testcases) base)

  abbrev pub find :
      ℕ → ℕ → Dict ℕ (Dict ℕ (TestcaseSolutionInfo F)) → Option (TestcaseSolutionInfo F)
  find st tc results = elim (lookup st results) [
    | none ↦ none
    | some testcases ↦ lookup tc testcases
  ]

  -- `testcase_status` is an object of the dictionary: what is assigned to it is written there.
  abbrev pub write :
      ℕ
      → ℕ
      → TestcaseSolutionInfo F
      → Dict ℕ (Dict ℕ (TestcaseSolutionInfo F))
      → Dict ℕ (Dict ℕ (TestcaseSolutionInfo F))
  write st tc info results = elim (lookup st results) [
    | none ↦ results
    | some testcases ↦ insert st (insert tc info testcases) results
  ]

  unfoldable pub put_case : ℕ → ℕ → TestcaseSolutionInfo F → Exec (Session F) Unit
  put_case st tc info = modify (λ s. record s {
    solution = record (s.solution) {
      testcase_results = write st tc info s.solution.testcase_results;
    };
  })

  -- self.testcase_results[subtask][testcase]
  unfoldable pub with_case :
      ℕ → ℕ → (TestcaseSolutionInfo F → Exec (Session F) Unit) → Exec (Session F) Unit
  with_case st tc f = fetch (λ s. find st tc s.solution.testcase_results) key_error >>= f
