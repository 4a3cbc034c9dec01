-- ===== src/Ioi/Outcome.antt =====
-- What the combined score and the outcome of a subtask say of its testcases.
use task_maker.Prelude.{
  ℕ, ◌≡◌, ◌↔◌, refl, Bool, true, false, not, Bool-cases, inl, inr, some, List, [], ◌∷◌, All,
  All-map, Dict, lookup, lookup-insert_self, All-lookup, key_error, nat_eq, ok, if◌then◌else◌,
  arith, some-injective, sym, ◌∙◌, ap,
}
use task_maker.Prelude.Execs.{Exec, pure, lift, fetch, modify, fetch_ok, lift_ok, ◌>>=◌}
use task_maker.Floats.{Floats, IsFloat, InUnit, min_from, max_from}
use task_maker.Ioi.{ScoreMode, SubtaskScoring, SubtaskSolutionResult, TestcaseSolutionInfo, Session}
use task_maker.Ioi.Range.{min_from-InUnit}
use task_maker.Ioi.Invariant.{IsScored, CasesInUnit, All-scores_of}
use task_maker.Ioi.Scoring.{combine, least, record_score, compute_st_score, checked_all, scores_of}

abbrev pub IsFull : {F : Type 0} → Floats F → F → Type 0
IsFull fl y = fl.eq y fl.one ≡ true

module _ {F : Type 0} (fl : Floats F) (laws : IsFloat fl) where
  abbrev AtLeast : F → F → Type 0
  AtLeast a y = fl.le a y ≡ true

  min_from_least :
      (l : List F) (m : F)
      → InUnit fl m
      → All (InUnit fl) l
      → All (AtLeast (min_from fl m l)) (m ∷ l)
  min_from_least [] m p h = (laws.le_self m p.0, tt)
  min_from_least (x ∷ l) m p h = pick (fl.lt x m) refl (λ k q. min_from_least l k q h.1)
    where
      pick :
          (b : Bool)
          → fl.lt x m ≡ b
          → ((k : F) → InUnit fl k → All (AtLeast (min_from fl k l)) (k ∷ l))
          → All (AtLeast (min_from fl (if b then x else m) l)) (m ∷ x ∷ l)
      pick true e ih =
          let least_x = ih x h.0 in
          (laws.le_trans (min_from fl x l) x m least_x.0 (laws.lt_le x m e), least_x)
      pick false e ih =
          let least_m = ih m p in
          let le_m = laws.le_of_not_lt x m h.0.0 p.0 e in
          (least_m.0, (laws.le_trans (min_from fl m l) m x least_m.0 le_m, least_m.1))

  min_from_ge :
      (l : List F) (m a : F) → AtLeast a m → All (AtLeast a) l → AtLeast a (min_from fl m l)
  min_from_ge [] m a p h = p
  min_from_ge (x ∷ l) m a p h = elim (Bool-cases (fl.lt x m)) [
    | inl e ↦ rw e (min_from_ge l x a h.0 h.1)
    | inr e ↦ rw e (min_from_ge l m a p h.1)
  ]

  IsFull-of_least :
      (a : F) (l : List F)
      → (IsFull fl) a
      → All (InUnit fl) l
      → All (AtLeast a) l
      → All (IsFull fl) l
  IsFull-of_least a [] e h k = tt
  IsFull-of_least a (x ∷ l) e h k = (
    (laws.eq_iff_le x fl.one).1
        (h.0.1, laws.le_trans fl.one a x ((laws.eq_iff_le a fl.one).0 e).1 k.0),
    IsFull-of_least a l e h.1 k.1,
  )

  -- The least score is full exactly where every score is.
  least-IsFull :
      (x : F) (l : List F)
      → All (InUnit fl) (x ∷ l)
      → (IsFull fl) (least fl (x ∷ l)) ↔ All (IsFull fl) (x ∷ l)
  least-IsFull x l h = (
    (λ e. IsFull-of_least (min_from fl x l) (x ∷ l) e h (min_from_least l x h.0 h.1)),
    (λ k.
        let ge : All (AtLeast fl.one) (x ∷ l) =
          All-map (IsFull fl) (AtLeast fl.one) (x ∷ l) (λ y e. ((laws.eq_iff_le y fl.one).0 e).1)
            k in
        (laws.eq_iff_le (min_from fl x l) fl.one).1
          ((min_from-InUnit fl laws x l h.0 h.1).1, min_from_ge l x fl.one ge.0 ge.1)),
  )

  abbrev accepted_if : Bool → F → SubtaskSolutionResult
  accepted_if full score =
      if full
      then SubtaskSolutionResult.accepted
      else if fl.eq score fl.zero
      then SubtaskSolutionResult.rejected
      else SubtaskSolutionResult.partial

  accepted_if_iff :
      (full : Bool) (score : F)
      → (accepted_if full score ≡ SubtaskSolutionResult.accepted) ↔ (full ≡ true)
  accepted_if_iff full score = (λ p. ground arith, λ p. ground arith)

  combine_total :
      (mode : ScoreMode) (x : F) (l : List F) → (b : F) × (combine fl mode (x ∷ l) ≡ ok b)
  unfolding combine
  combine_total ScoreMode.min x l = (min_from fl x l, refl)
  combine_total ScoreMode.max x l = (max_from fl x l, refl)
  combine_total ScoreMode.sum x l = (_, refl)

  -- A subtask whose testcases have all been checked gets its outcome.
  compute_complete :
      (st : ℕ) (s : Session F) (d : Dict ℕ (TestcaseSolutionInfo F)) (subtask : SubtaskScoring F)
      (b : F)
      → lookup st s.solution.testcase_results ≡ some d
      → checked_all fl d ≡ true
      → lookup st s.solution.subtasks ≡ some subtask
      → combine fl subtask.score_mode (scores_of fl d) ≡ ok b
      → compute_st_score fl st s ≡ (ok tt, record_score fl st subtask (scores_of fl d) b s)
  unfolding compute_st_score
  compute_complete st s d subtask b found all_done known c =
      fetch_ok _ (λ t. lookup st t.solution.testcase_results) _ d s found
      ∙ (ap (λ x. (if not x then pure tt else scored) s) all_done
          ∙ (fetch_ok _ (λ t. lookup st t.solution.subtasks) _ subtask s known
              ∙ lift_ok (λ base. modify (record_score fl st subtask (scores_of fl d) base))
                  (combine fl subtask.score_mode (scores_of fl d)) b s c))
    where
      scored : Exec (Session F) Unit
      scored = do
        subtask ← fetch (λ s. lookup st s.solution.subtasks) key_error
        base ← lift (combine fl subtask.score_mode (scores_of fl d))
        modify (record_score fl st subtask (scores_of fl d) base)

  result_lem :
      (st : ℕ) (subtask : SubtaskScoring F) (scores : List F) (b : F) (s : Session F)
      → lookup st (record_score fl st subtask scores b s).solution.subtask_results
        ≡ some (accepted_if (fl.eq (least fl scores) fl.one) (fl.mul b subtask.max_score))
  unfolding record_score
  result_lem st subtask scores b s = lookup-insert_self st _ s.solution.subtask_results

  accepted_iff :
      (st : ℕ) (subtask : SubtaskScoring F) (scores : List F) (b : F) (s : Session F)
      → (lookup st (record_score fl st subtask scores b s).solution.subtask_results
          ≡ some SubtaskSolutionResult.accepted)
        ↔ (IsFull fl) (least fl scores)
  accepted_iff st subtask scores b s = (
    (λ p.
        (accepted_if_iff _ _).0 (some-injective _ _ (sym (result_lem st subtask scores b s) ∙ p))),
    (λ p. result_lem st subtask scores b s ∙ ap some ((accepted_if_iff _ _).1 p)),
  )

  -- Once all testcases of a subtask have been checked, and there is one, computing its score raises
  -- nothing, and calls the subtask accepted exactly where every testcase scored 1.
  pub compute_st_score-accepted :
      (st k : ℕ) (s : Session F) (t : TestcaseSolutionInfo F) (d : Dict ℕ (TestcaseSolutionInfo F))
      (subtask : SubtaskScoring F)
      → IsScored fl s
      → lookup st s.solution.testcase_results ≡ some ((k, t) ∷ d)
      → checked_all fl ((k, t) ∷ d) ≡ true
      → lookup st s.solution.subtasks ≡ some subtask
      → ((compute_st_score fl st s).0 ≡ ok tt)
        × ((lookup st (compute_st_score fl st s).1.solution.subtask_results
              ≡ some SubtaskSolutionResult.accepted)
            ↔ All (IsFull fl) (scores_of fl ((k, t) ∷ d)))
  compute_st_score-accepted st k s t d subtask h found all_done known =
      let (b, c) = combine_total subtask.score_mode t.score (scores_of fl d) in
      let same = compute_complete st s ((k, t) ∷ d) subtask b found all_done known c in
      let unit =
        All-scores_of fl laws ((k, t) ∷ d)
          (All-lookup (CasesInUnit fl) st s.solution.testcase_results ((k, t) ∷ d) found
            h.cases).0 in
      let full = least-IsFull t.score (scores_of fl d) unit in
      let acc = accepted_iff st subtask (scores_of fl ((k, t) ∷ d)) b s in
      rw same (refl, ((λ p. full.0 (acc.0 p)), (λ p. acc.1 (full.1 p))))
