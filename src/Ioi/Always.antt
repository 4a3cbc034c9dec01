-- ===== src/Ioi/Always.antt =====
-- What holds of a solution's status after any updates.
use task_maker.Prelude.{
  ℕ, ◌<◌, ◌≤◌, ◌+◌, String, ◌≡◌, refl, Bool-cases, inl, inr, some, List, [], ◌∷◌, length, All, Dict,
  values, lookup, insert, All-insert, nat_eq, arith, ◌==◌, some-injective, subst, none-ne-some, sym,
  length-insert-le, All-lookup,
}
use task_maker.Prelude.Execs.{Keeps}
use task_maker.Floats.{Floats, IsFloat, InUnit, exact, sum_from}
use task_maker.Ui.{SignalNames, UiInterface}
use task_maker.Ioi.{SubtaskScoring, TestcaseSolutionInfo, Session}
use task_maker.Ioi.Invariant.{IsScored, HasMaximum, CasesInUnit, Bounded}
use task_maker.Ioi.Updated.{
  update_eval_result-IsScored, update_default_check_result-IsScored,
  update_custom_check_result-IsScored,
}
use task_maker.Ioi.Evaluation.{
  Update, evaluated, compared, checked, update, update_all, new_session, new_status, new_testcases,
  new_info, for_subtasks,
}

module _ {F : Type 0} (fl : Floats F) (laws : IsFloat fl) where
  abbrev Zero : F → Type 0
  Zero x = x ≡ fl.zero

  sum_of_zeros :
      (d : Dict ℕ (List ℕ)) (acc : F)
      → Zero acc
      → sum_from fl acc (values (for_subtasks (λ _. fl.zero) d)) ≡ fl.zero
  sum_of_zeros [] acc h = h
  sum_of_zeros ((k, l) ∷ d) acc h = sum_of_zeros d (fl.add acc fl.zero) (rw h laws.add_zero)

  abbrev Scores : TestcaseSolutionInfo F → Type 0
  Scores t = InUnit fl t.score

  new_testcases-Scores :
      (l : List ℕ) (d : Dict ℕ (TestcaseSolutionInfo F))
      → All Scores (values d)
      → All Scores (values (new_testcases fl l d))
  unfolding new_testcases
  new_testcases-Scores [] d h = h
  new_testcases-Scores (tc ∷ l) d h =
      new_testcases-Scores l (insert tc (new_info fl) d)
        (All-insert Scores tc (new_info fl) d (laws.zero_le_zero, laws.zero_le_one) h)

  length-new_testcases :
      (l : List ℕ) (d : Dict ℕ (TestcaseSolutionInfo F))
      → length (new_testcases fl l d) ≤ length l + length d
  unfolding new_testcases
  length-new_testcases [] d = omega arith
  length-new_testcases (tc ∷ l) d = omega (
    arith,
    length-new_testcases l (insert tc (new_info fl) d),
    length-insert-le tc (new_info fl) d,
  )

  new_cases :
      (d : Dict ℕ (List ℕ))
      → All (λ l. length l < exact) (values d)
      → All (CasesInUnit fl) (values (for_subtasks (λ l. new_testcases fl l []) d))
  new_cases [] h = tt
  new_cases ((k, l) ∷ d) h = (
    (new_testcases-Scores l [] tt, omega (arith, length-new_testcases l [], h.0)),
    new_cases d h.1,
  )

  zero_scores :
      (d : Dict ℕ (List ℕ)) (st : ℕ) (x : F)
      → lookup st (for_subtasks (λ _. fl.zero) d) ≡ some x
      → Zero x
  unfolding lookup
  zero_scores [] st x h = absurd (none-ne-some h)
  zero_scores ((k, l) ∷ d) st x h = elim (Bool-cases (k == st)) [
    | inl e ↦ sym (some-injective _ _ (rw e at h))
    | inr e ↦ zero_scores d st x (rw e at h)
  ]

  new_session-IsScored :
      (name : String) (scoring : Dict ℕ (SubtaskScoring F)) (subtasks : Dict ℕ (List ℕ))
      (ui : UiInterface)
      → All (HasMaximum fl) (values scoring)
      → All (λ l. length l < exact) (values subtasks)
      → IsScored fl (new_session fl name scoring subtasks ui)
  unfolding new_status
  new_session-IsScored name scoring subtasks ui m few = record {
    maxima = m;
    cases = new_cases subtasks few;
    total = sym (sum_of_zeros subtasks fl.zero refl);
    bounded = λ st x subtask a b.
        subst (λ z. Bounded fl z subtask) (sym (zero_scores subtasks st x a))
          (laws.zero_le_zero, (All-lookup (HasMaximum fl) st scoring subtask b m).0);
  }

  update-IsScored :
      (names : SignalNames) (st tc : ℕ) (u : Update) → Keeps (IsScored fl) (update names fl st tc u)
  unfolding update
  update-IsScored names st tc (evaluated result num) =
      update_eval_result-IsScored names fl laws st tc result num
  update-IsScored names st tc (compared result) =
      update_default_check_result-IsScored names fl laws st tc result
  update-IsScored names st tc (checked result stdout stderr) =
      update_custom_check_result-IsScored names fl laws st tc result stdout stderr

  update_all-keeps :
      (names : SignalNames) (us : List (ℕ × ℕ × Update)) (s : Session F)
      → IsScored fl s
      → IsScored fl (update_all names fl us s)
  unfolding update_all
  update_all-keeps names [] s h = h
  update_all-keeps names ((st, tc, u) ∷ us) s h =
      update_all-keeps names us (update names fl st tc u s).1
        ((update-IsScored names st tc u).at s h)

  pub update_all-IsScored :
      (names : SignalNames) (name : String) (scoring : Dict ℕ (SubtaskScoring F))
      (subtasks : Dict ℕ (List ℕ)) (ui : UiInterface) (us : List (ℕ × ℕ × Update))
      → All (HasMaximum fl) (values scoring)
      → All (λ l. length l < exact) (values subtasks)
      → IsScored fl (update_all names fl us (new_session fl name scoring subtasks ui))
  update_all-IsScored names name scoring subtasks ui us m few =
      update_all-keeps names us _ (new_session-IsScored name scoring subtasks ui m few)
