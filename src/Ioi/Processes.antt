-- ===== src/Ioi/Processes.antt =====
-- The evaluations of a communication task with several processes, as their callbacks see them.
use task_maker.Prelude.{
  ℕ, suc, ◌-◌, ◌≡◌, refl, Bool, false, not, ◌&&◌, Option-cases, inl, inr, Option, none, some, List,
  [], ◌∷◌, length, get_elem?, set, all, replicate, Dict, lookup, insert, lookup-insert_self, nat_eq,
  some-injective, none-ne-some, ltb, arith, subst, sym, ok, ◌∙◌, ap, or_raise, key_error,
}
use task_maker.Prelude.Execs.{Exec, continue, Keeps, pure, fetch_at, if_at, ◌>>=◌, Keeps-bind}
use task_maker.Floats.{Floats}
use task_maker.Remote.{ExecutionResult}
use task_maker.Ui.{SignalNames}
use task_maker.Ioi.{TestcaseSolutionInfo, TestcaseSolutionStatus, Session}
use task_maker.Ioi.Scoring.{find, write, put_case, with_case}
use task_maker.Ioi.Updates.{is_some, update_eval_result_internal, update_eval_result}
use task_maker.Ioi.Evaluation.{
  Closure, EvaluationEvent, start, skip, done, after, set_status, add_evaluate_solution,
  on_evaluation, run_evaluations,
}

module _ (names : SignalNames) {F : Type 0} (fl : Floats F) (st tc : ℕ) where
  find-write :
      (info old : TestcaseSolutionInfo F) (r : Dict ℕ (Dict ℕ (TestcaseSolutionInfo F)))
      → find fl st tc r ≡ some old
      → find fl st tc (write fl st tc info r) ≡ some info
  find-write info old r q = elim (Option-cases (lookup st r)) [
    | inl e ↦ absurd (none-ne-some (rw (e, find) at q))
    | inr (d, e) ↦
        rw (e, write)
          (rw (lookup-insert_self st (insert tc info d) r, find) (lookup-insert_self tc info d))
  ]

  -- The first evaluation has no result, and the testcase is checked or not as `b` says.
  abbrev pub Idle : Bool → TestcaseSolutionInfo F → Type 0
  Idle b info = (get_elem? info.result 0 ≡ some none) × (info.checked ≡ b)

  pub record FirstMissing (b : Bool) (s : Session F) : Type 0 where
    pub at_case :
        (info : TestcaseSolutionInfo F)
        → find fl st tc s.solution.testcase_results ≡ some info
        → Idle b info

  module _ (b : Bool) where
    put_at :
        (info old : TestcaseSolutionInfo F) (s : Session F)
        → find fl st tc s.solution.testcase_results ≡ some old
        → Idle b info
        → FirstMissing b (put_case fl st tc info s).1
    unfolding put_case
    put_at info old s q h = record {
      at_case = λ other p.
          subst (Idle b)
            (some-injective _ _ (sym (find-write info old s.solution.testcase_results q) ∙ p)) h;
    }

    case_at :
        (f : TestcaseSolutionInfo F → Exec (Session F) Unit) (s : Session F)
        → FirstMissing b s
        → ((info : TestcaseSolutionInfo F)
            → find fl st tc s.solution.testcase_results ≡ some info
            → Idle b info
            → FirstMissing b (f info s).1)
        → FirstMissing b (with_case fl st tc f s).1
    unfolding with_case
    case_at f s h k =
        fetch_at (FirstMissing b) f (λ t. find fl st tc t.solution.testcase_results) _ s h
          λ info q. k info q (h.at_case info q)

    get_elem?-set_later :
        (l : List (Option ExecutionResult)) (m : ℕ) (r : Option ExecutionResult)
        → get_elem? l 0 ≡ some none
        → get_elem? (set l (suc m) r) 0 ≡ some none
    get_elem?-set_later [] m r h = h
    get_elem?-set_later (x ∷ l) m r h = h

    not_all :
        (l : List (Option ExecutionResult)) → get_elem? l 0 ≡ some none → all is_some l ≡ false
    not_all [] h = absurd (none-ne-some h)
    not_all (none ∷ l) h = refl
    not_all (some x ∷ l) h = absurd (none-ne-some (sym (some-injective _ _ h)))

    internal-Keeps : Keeps (FirstMissing b) (update_eval_result_internal names fl st tc)
    unfolding update_eval_result_internal
    internal-Keeps = record { at = λ s h. case_at _ s h λ info q i. rw (not_all info.result i.0) h }

    eval-Keeps :
        (r : ExecutionResult) (m : ℕ)
        → Keeps (FirstMissing b) (update_eval_result names fl st tc r (suc m))
    unfolding update_eval_result
    eval-Keeps r m =
        Keeps-bind (FirstMissing b) _ _ (record { at = λ s h. record { at_case = h.at_case } })
          λ _.
            Keeps-bind (FirstMissing b) _ _
              (record {
                at = λ s h. case_at _ s h λ info q i.
                    if_at (FirstMissing b) (ltb (suc m) (length info.result)) _ _ s
                      (λ _.
                        put_at (record info { result = set info.result (suc m) (some r) }) info s q
                          (get_elem?-set_later info.result m (some r) i.0, i.1))
                      (λ _. h);
              })
              λ _. internal-Keeps

    status-Keeps :
        (x : TestcaseSolutionStatus) → Keeps (FirstMissing b) (set_status names fl st tc x)
    status-Keeps x = record {
      at = λ s h. case_at _ s h λ info q i. put_at (record info { status = x }) info s q i;
    }

    pure-Keeps : {A : Type 0} (a : A) → Keeps (FirstMissing b) (pure a)
    pure-Keeps a = record { at = λ s h. h }

    event-Keeps :
        (e : EvaluationEvent) (c : Closure) (m : ℕ)
        → c.num ≡ suc m
        → Keeps (FirstMissing b) (on_evaluation names fl st tc e c)
    unfolding on_evaluation
    event-Keeps start c m q = record {
      at = λ s h.
          if_at (FirstMissing b) (not c.started && not c.skipped) _ _ s
            (λ _. (status-Keeps TestcaseSolutionStatus.solving).at s h) (λ _. h);
    }
    event-Keeps (done r) c m q = rw q (eval-Keeps r m)
    event-Keeps skip c m q = status-Keeps TestcaseSolutionStatus.skipped

    num-after : (e : EvaluationEvent) (c : Closure) → (after e c).num ≡ c.num
    unfolding after
    num-after start c = ground arith
    num-after _ c = refl

    run-Keeps :
        (es : List EvaluationEvent) (c : Closure) (m : ℕ)
        → c.num ≡ suc m
        → Keeps (FirstMissing b) (run_evaluations names fl st tc es c)
    unfolding run_evaluations
    run-Keeps [] c m q = pure-Keeps tt
    run-Keeps (e ∷ es) c m q =
        Keeps-bind (FirstMissing b) _ _ (event-Keeps e c m q)
          λ _. run-Keeps es (after e c) m (num-after e c ∙ q)

  -- add_evaluate_solution, then the events of its evaluations.
  abbrev pub track : ℕ → List EvaluationEvent → Exec (Session F) Unit
  track count es = add_evaluate_solution names fl st tc count >>= run_evaluations names fl st tc es

  abbrev closure : ℕ → Closure
  closure count = record { started = false; skipped = false; num = count - 1 }

  registered :
      (count : ℕ) (s : Session F) (info : TestcaseSolutionInfo F)
      → find fl st tc s.solution.testcase_results ≡ some info
      → add_evaluate_solution names fl st tc count s ≡ (
        ok (closure count),
        (put_case fl st tc (record info { result = replicate count none }) s).1,
      )
  unfolding add_evaluate_solution with_case put_case ◌>>=◌
  registered count s info q =
      ap
        (λ x.
          continue {B = Closure} (continue (or_raise x key_error) put s).0
            (λ _. pure (closure count)) (continue (or_raise x key_error) put s).1)
        q
    where
      put : TestcaseSolutionInfo F → Exec (Session F) Unit
      put info = put_case fl st tc (record info { result = replicate count none })

  -- Where a solution runs as two processes or more, whatever happens to them, the result of the first
  -- is never stored: every callback writes to the slot of the last one. So the testcase stays as
  -- unchecked as it was.
  pub track-FirstMissing :
      (count : ℕ) (es : List EvaluationEvent) (s : Session F) (info : TestcaseSolutionInfo F)
      → find fl st tc s.solution.testcase_results ≡ some info
      → FirstMissing info.checked (track (suc (suc count)) es s).1
  unfolding ◌>>=◌
  track-FirstMissing count es s info q = rw (registered (suc (suc count)) s info q) (
      (run-Keeps info.checked es (closure (suc (suc count))) count (omega arith)).at _ (
        put_at info.checked (record info { result = replicate (suc (suc count)) none }) info s q
          (refl, refl)))
