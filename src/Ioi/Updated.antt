-- ===== src/Ioi/Updated.antt =====
-- Every update of a testcase keeps the invariant of the scores.
use task_maker.Prelude.{
  ℕ, String, ◌≡◌, refl, true, not, Option, none, some, length, all, set, nat_eq, arith, ltb, strip,
  Result, ok, err, subst, sym,
}
use task_maker.Prelude.Execs.{Exec, Keeps, lift, ◌>>=◌, ◌>>◌, Keeps-bind, continue, lift_at, if_at}
use task_maker.Floats.{Floats, IsFloat, InUnit, in_unit}
use task_maker.Remote.{ExecutionResult, ResultStatus, is_success}
use task_maker.Ui.{SignalNames, result_to_str}
use task_maker.Ioi.{TestcaseSolutionInfo, TestcaseSolutionStatus, Session}
use task_maker.Ioi.Scoring.{find, compute_st_score, put_case}
use task_maker.Ioi.Updates.{
  is_some, all_success, is_final, set_message, update_eval_result_internal, update_eval_result,
  default_outcome, update_default_check_result,
}
use task_maker.Ioi.Custom.{
  reject_checker, reject_score, accept_score, judge, change, complain, update_custom_check_result,
}
use task_maker.Ioi.Invariant.{
  IsScored, compute_st_score-IsScored, with_case_at, put_case_at, change-IsScored,
  set_message-IsScored,
}

module _ (names : SignalNames) {F : Type 0} (fl : Floats F) (laws : IsFloat fl) (st tc : ℕ) where
  abbrev P : Session F → Type 0
  P = IsScored fl

  put_failed_and_compute :
      (info old : TestcaseSolutionInfo F) (s : Session F)
      → P s
      → find fl st tc s.solution.testcase_results ≡ some old
      → InUnit fl info.score
      → P ((put_case fl st tc info >> compute_st_score fl st) s).1
  unfolding ◌>>=◌ put_case
  put_failed_and_compute info old s h found p =
      (compute_st_score-IsScored fl laws st).at _ (put_case_at fl laws st tc info old s h found p)

  then_message :
      (m : Exec (Session F) Unit) (s : Session F)
      → P (m s).1
      → P ((m >> set_message names fl st tc) s).1
  unfolding ◌>>=◌
  then_message m s h = continue_at (m s).0 (m s).1 h
    where
      continue_at :
          (r : Result Unit) (t : Session F)
          → P t
          → P (continue r (λ _. set_message names fl st tc) t).1
      continue_at (ok _) t k = (set_message-IsScored fl laws st tc names).at t k
      continue_at (err _) t k = k

  update_eval_result_internal-IsScored : Keeps P (update_eval_result_internal names fl st tc)
  unfolding update_eval_result_internal
  update_eval_result_internal-IsScored = record {
    at = λ s h. with_case_at fl laws st tc _ s h λ info found p.
        if_at P (not (all is_some info.result)) _ _ s (λ _. h)
          λ _. lift_at P _ (all_success info.result) s h λ good _. then_message _ s (
            if_at P good _ _ s
              (λ _.
                if_at P (is_final info.status) _ _ s (λ _. h)
                  (λ _.
                    put_case_at fl laws st tc
                      (record info { status = TestcaseSolutionStatus.solved }) info s h found p))
              (λ _.
                put_failed_and_compute
                  (record info { status = TestcaseSolutionStatus.failed; checked = true }) info s h
                  found p));
  }

  pub update_eval_result-IsScored :
      (result : ExecutionResult) (num : ℕ) → Keeps P (update_eval_result names fl st tc result num)
  unfolding update_eval_result
  update_eval_result-IsScored result num =
      Keeps-bind P _ _
        (record {
          at = λ s h. record {
            maxima = h.maxima;
            cases = h.cases;
            total = h.total;
            bounded = h.bounded;
          };
        })
        λ _.
          Keeps-bind P _ _
            (record {
              at = λ s h. with_case_at fl laws st tc _ s h λ info found p.
                  if_at P (ltb num (length info.result)) _ _ s
                    (λ _.
                      put_case_at fl laws st tc
                        (record info { result = set info.result num (some result) }) info s h found
                        p)
                    (λ _. h);
            })
            λ _. update_eval_result_internal-IsScored

  default_outcome-InUnit :
      (r : ExecutionResult) (info : TestcaseSolutionInfo F)
      → InUnit fl info.score
      → InUnit fl (default_outcome fl r info).score
  default_outcome-InUnit r info p = go r.status refl
    where
      go : (status : ResultStatus) → r.status ≡ status → InUnit fl (default_outcome fl r info).score
      go ResultStatus.success e = rw e (laws.zero_le_one, laws.one_le_one)
      go ResultStatus.return_code e = rw e (laws.zero_le_zero, laws.zero_le_one)
      go _ e = rw e p

  pub update_default_check_result-IsScored :
      (result : ExecutionResult) → Keeps P (update_default_check_result names fl st tc result)
  unfolding update_default_check_result
  update_default_check_result-IsScored result =
      Keeps-bind P _ _
        (change-IsScored fl laws st tc (default_outcome fl result) (default_outcome-InUnit result))
        λ _.
          Keeps-bind P _ _ (set_message-IsScored fl laws st tc names)
            λ _. compute_st_score-IsScored fl laws st

  -- A change of a testcase that leaves its score as it is.
  aside :
      (f : TestcaseSolutionInfo F → TestcaseSolutionInfo F)
      → ((info : TestcaseSolutionInfo F) → (f info).score ≡ info.score)
      → Keeps P (change names fl st tc f)
  aside f same = change-IsScored fl laws st tc f (λ info p. subst (InUnit fl) (sym (same info)) p)

  message_set : Keeps P (set_message names fl st tc)
  message_set = set_message-IsScored fl laws st tc names

  complain-IsScored : (what link out : String) → Keeps P (complain names fl st tc what link out)
  complain-IsScored what link out = record {
    at = λ s h. record { maxima = h.maxima; cases = h.cases; total = h.total; bounded = h.bounded };
  }

  lifted : {A : Type 0} (r : Result A) → Keeps P (lift r)
  lifted r = record { at = λ s h. h }

  reject_checker-IsScored :
      (result : ExecutionResult) → Keeps P (reject_checker names fl st tc result)
  unfolding reject_checker
  reject_checker-IsScored result = Keeps-bind P _ _ (aside _ (λ info. refl)) λ _.
      Keeps-bind P _ _ (lifted (result_to_str names result)) λ text.
        Keeps-bind P _ _ (aside _ (λ info. refl))
          λ _. Keeps-bind P _ _ message_set λ _. aside _ (λ info. refl)

  reject_score-IsScored :
      (what link out : String) → Keeps P (reject_score names fl st tc what link out)
  unfolding reject_score
  reject_score-IsScored what link out = Keeps-bind P _ _ (aside _ (λ info. refl)) λ _.
      Keeps-bind P _ _ message_set
        λ _. Keeps-bind P _ _ (aside _ (λ info. refl)) λ _. complain-IsScored what link out

  accept_score-IsScored :
      (score : F) (out stderr : String)
      → InUnit fl score
      → Keeps P (accept_score names fl st tc score out stderr)
  unfolding accept_score
  accept_score-IsScored score out stderr u =
      Keeps-bind P _ _ (change-IsScored fl laws st tc _ (λ info p. u)) λ _.
        Keeps-bind P _ _ message_set
          λ _. Keeps-bind P _ _ (aside _ (λ info. refl)) λ _. compute_st_score-IsScored fl laws st

  judge-IsScored :
      (score : Option F) (out stderr : String) → Keeps P (judge names fl st tc score out stderr)
  judge-IsScored none out stderr = reject_score-IsScored "Invalid output '" "' for" out
  judge-IsScored (some score) out stderr = record {
    at = λ s h.
        if_at P (not (in_unit fl score)) _ _ s
          (λ _. (reject_score-IsScored "Invalid score '" "' from" out).at s h)
          (λ e. (accept_score-IsScored score out stderr (ground arith)).at s h);
  }

  pub update_custom_check_result-IsScored :
      (result : ExecutionResult) (stdout stderr : String)
      → Keeps P (update_custom_check_result names fl st tc result stdout stderr)
  unfolding update_custom_check_result
  update_custom_check_result-IsScored result stdout stderr =
      Keeps-bind P _ _ (aside _ (λ info. refl)) λ _. record {
        at = λ s h. with_case_at fl laws st tc _ s h λ info found p.
            if_at P info.checked _ _ s (λ _. h)
              λ _.
                if_at P (not (is_success result.status)) _ _ s
                  (λ _. (reject_checker-IsScored result).at s h)
                  (λ _. (judge-IsScored (fl.parse (strip stdout)) (strip stdout) stderr).at s h);
      }
