-- ===== src/Ioi/Invariant.antt =====
-- What the updates of a solution's status keep: the total is the sum of the subtasks' scores, every
-- testcase scores between 0 and 1, and every subtask between 0 and its maximum.
use task_maker.Prelude.{
  ℕ, ◌<◌, ◌≡◌, refl, true, false, Bool-cases, Option-cases, inl, inr, some, List, [], ◌∷◌, length,
  All, Dict, values, lookup, insert, none-ne-some, ◌⊎◌, length-insert, All-insert, All-lookup,
  lookup-insert, nat_eq, nat_beq_iff, if◌then◌else◌, ◌==◌, subst, ap, some-injective,
}
use task_maker.Prelude.Execs.{Exec, Keeps, lift_at, fetch_at}
use task_maker.Floats.{Floats, IsFloat, InUnit, exact, sum_from}
use task_maker.Ui.{SignalNames}
use task_maker.Ioi.{TestcaseSolutionInfo, SubtaskScoring, Session}
use task_maker.Ioi.Scoring.{
  combine, record_score, compute_st_score, find, write, put_case, with_case, checked_all, scores_of,
}
use task_maker.Ioi.Updates.{get_solution_message, set_message}
use task_maker.Ioi.Range.{combine-InUnit}

module _ {F : Type 0} (fl : Floats F) where
  abbrev pub CasesInUnit : Dict ℕ (TestcaseSolutionInfo F) → Type 0
  CasesInUnit testcases =
      All (λ t. InUnit fl t.score) (values testcases) × (length testcases < exact)

  -- The maximum of a subtask is a number from 0 up.
  abbrev pub HasMaximum : SubtaskScoring F → Type 0
  HasMaximum subtask =
      (fl.le fl.zero subtask.max_score ≡ true) × (fl.finite subtask.max_score ≡ true)

  abbrev pub Bounded : F → SubtaskScoring F → Type 0
  Bounded x subtask = (fl.le fl.zero x ≡ true) × (fl.le x subtask.max_score ≡ true)

  pub record IsScored (s : Session F) : Type 0 where
    pub maxima : All HasMaximum (values s.solution.subtasks)
    pub cases : All CasesInUnit (values s.solution.testcase_results)
    pub total : s.solution.score ≡ sum_from fl fl.zero (values s.solution.subtask_scores)
    pub bounded :
        (st : ℕ) (x : F) (subtask : SubtaskScoring F)
        → lookup st s.solution.subtask_scores ≡ some x
        → lookup st s.solution.subtasks ≡ some subtask
        → Bounded x subtask

  module _ (laws : IsFloat fl) where
    abbrev pub Scores : TestcaseSolutionInfo F → Type 0
    Scores t = InUnit fl t.score

    write-cases :
        (st tc : ℕ) (info old : TestcaseSolutionInfo F)
        (r : Dict ℕ (Dict ℕ (TestcaseSolutionInfo F)))
        → find fl st tc r ≡ some old
        → InUnit fl info.score
        → All CasesInUnit (values r)
        → All CasesInUnit (values (write fl st tc info r))
    write-cases st tc info old r q p h = elim (Option-cases (lookup st r)) [
      | inl e ↦ rw (e, write, values, All) h
      | inr (testcases, e) ↦
          let known = All-lookup CasesInUnit st r testcases e h in
          let count = length-insert tc info testcases old (rw (e, find) at q) in
          rw (e, write, values, All)
            (All-insert CasesInUnit st (insert tc info testcases) r
              (All-insert Scores tc info testcases p known.0, rw count known.1) h)
    ]

    find-InUnit :
        (st tc : ℕ) (info : TestcaseSolutionInfo F) (r : Dict ℕ (Dict ℕ (TestcaseSolutionInfo F)))
        → find fl st tc r ≡ some info
        → All CasesInUnit (values r)
        → InUnit fl info.score
    find-InUnit st tc info r q h = elim (Option-cases (lookup st r)) [
      | inl e ↦ absurd (none-ne-some (rw (e, find) at q))
      | inr (testcases, e) ↦
          All-lookup Scores tc testcases info (rw (e, find) at q)
            (All-lookup CasesInUnit st r testcases e h).0
    ]

    pub All-scores_of :
        (d : Dict ℕ (TestcaseSolutionInfo F))
        → All Scores (values d)
        → All (InUnit fl) (scores_of fl d)
    All-scores_of [] h = tt
    All-scores_of ((k, t) ∷ d) h = (h.0, All-scores_of d h.1)

    length-scores_of : (d : Dict ℕ (TestcaseSolutionInfo F)) → length (scores_of fl d) ≡ length d
    length-scores_of [] = refl
    length-scores_of ((k, t) ∷ d) = ap ℕ.suc (length-scores_of d)

    record_score-IsScored :
        (st : ℕ) (subtask : SubtaskScoring F) (scores : List F) (base : F) (s : Session F)
        → InUnit fl base
        → lookup st s.solution.subtasks ≡ some subtask
        → IsScored s
        → IsScored (record_score fl st subtask scores base s)
    unfolding record_score
    record_score-IsScored st subtask scores base s u q h = record {
      maxima = h.maxima;
      cases = h.cases;
      total = refl;
      bounded = λ j x other a b. bound j x other (rw lookup-insert at a) b (Bool-cases (st == j));
    }
      where
        bound :
            (j : ℕ) (x : F) (other : SubtaskScoring F)
            → (if st == j
                then some (fl.mul base subtask.max_score)
                else lookup j s.solution.subtask_scores)
              ≡ some x
            → lookup j s.solution.subtasks ≡ some other
            → ((st == j) ≡ true) ⊎ ((st == j) ≡ false)
            → Bounded x other
        bound j x other a b (inl e) =
            let m = All-lookup HasMaximum st s.solution.subtasks subtask q h.maxima in
            let same : subtask ≡ other = cc ((nat_beq_iff st j).0 e) in
            subst (λ z. Bounded z other) (some-injective _ _ (rw e at a))
              (subst (Bounded (fl.mul base subtask.max_score)) same
                (laws.mul_range base subtask.max_score u.0 u.1 m.0 m.1))
        bound j x other a b (inr e) = h.bounded j x other (rw e at a) b

    compute_at : (st : ℕ) (s : Session F) → IsScored s → IsScored (compute_st_score fl st s).1
    unfolding compute_st_score
    compute_at st s h =
        fetch_at IsScored _ (λ t. lookup st t.solution.testcase_results) _ s h
          λ testcases found. elim (Bool-cases (checked_all fl testcases)) [
            | inr e ↦ rw e h
            | inl e ↦ rw e (
                fetch_at IsScored _ (λ t. lookup st t.solution.subtasks) _ s h
                  λ subtask q.
                    lift_at IsScored _ (combine fl subtask.score_mode (scores_of fl testcases)) s h
                      λ base c.
                        record_score-IsScored st subtask (scores_of fl testcases) base s
                          (combine-InUnit fl laws subtask.score_mode (scores_of fl testcases)
                            (All-scores_of testcases (known testcases found).0)
                            (rw length-scores_of (known testcases found).1) c)
                          q h)
          ]
      where
        known :
            (testcases : Dict ℕ (TestcaseSolutionInfo F))
            → lookup st s.solution.testcase_results ≡ some testcases
            → CasesInUnit testcases
        known testcases found =
            All-lookup CasesInUnit st s.solution.testcase_results testcases found h.cases

    pub compute_st_score-IsScored : (st : ℕ) → Keeps IsScored (compute_st_score fl st)
    compute_st_score-IsScored st = record { at = compute_at st }

    module _ (st tc : ℕ) where
      -- The rest of a method knows that the testcase it found scores between 0 and 1.
      pub with_case_at :
          (f : TestcaseSolutionInfo F → Exec (Session F) Unit) (s : Session F)
          → IsScored s
          → ((info : TestcaseSolutionInfo F)
              → find fl st tc s.solution.testcase_results ≡ some info
              → InUnit fl info.score
              → IsScored (f info s).1)
          → IsScored (with_case fl st tc f s).1
      unfolding with_case
      with_case_at f s h k =
          fetch_at IsScored f (λ t. find fl st tc t.solution.testcase_results) _ s h
            λ info found.
              k info found (find-InUnit st tc info s.solution.testcase_results found h.cases)

      pub put_case_at :
          (info old : TestcaseSolutionInfo F) (s : Session F)
          → IsScored s
          → find fl st tc s.solution.testcase_results ≡ some old
          → InUnit fl info.score
          → IsScored (put_case fl st tc info s).1
      unfolding put_case
      put_case_at info old s h found p = record {
        maxima = h.maxima;
        cases = write-cases st tc info old s.solution.testcase_results found p h.cases;
        total = h.total;
        bounded = h.bounded;
      }

      pub change-IsScored :
          (f : TestcaseSolutionInfo F → TestcaseSolutionInfo F)
          → ((info : TestcaseSolutionInfo F) → InUnit fl info.score → InUnit fl (f info).score)
          → Keeps IsScored (with_case fl st tc λ info. put_case fl st tc (f info))
      change-IsScored f k = record {
        at = λ s h.
            with_case_at (λ info. put_case fl st tc (f info)) s h
              λ info found p. put_case_at (f info) info s h found (k info p);
      }

      pub set_message-IsScored : (names : SignalNames) → Keeps IsScored (set_message names fl st tc)
      unfolding set_message
      set_message-IsScored names = record {
        at = λ s h. with_case_at _ s h λ info found p.
            lift_at IsScored (λ message. put_case fl st tc (record info { message = message }))
              (get_solution_message names info) s h
              λ message _. put_case_at (record info { message = message }) info s h found p;
      }
