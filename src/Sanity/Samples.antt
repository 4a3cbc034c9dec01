-- ===== src/Sanity/Samples.antt =====
-- When the samples and the checks of samples are complained about: python/sanity_checks/ioi.py.
use task_maker.Prelude.{
  ◌≤◌, ◌≡◌, ◌↔◌, refl, String, ◌+s◌, Bool, true, false, Option, none, some, [], ◌∷◌, length,
  length-append, arith, Bool-cases, inl, inr,
}
use task_maker.Floats.{Floats, in_unit, InUnit}
use task_maker.Remote.{ExecutionResult, is_success}
use task_maker.Ui.{UiInterface, add_error}
use task_maker.Sanity.{on_execution, judge, on_checker}

module _ {F : Type 0} (fl : Floats F) where
  -- The output of a custom checker is a number between 0 and 1.
  abbrev pub IsScore : Option F → Type 0
  IsScore none = ⊥
  IsScore (some score) = InUnit fl score

  judge_iff :
      (message : String) (score : Option F) (ui : UiInterface)
      → (length (judge fl message score ui).errors ≡ length ui.errors) ↔ IsScore score
  unfolding add_error
  judge_iff message none ui = (
    λ h.
        absurd
          (omega (arith, h, length-append ui.errors ((message +s ": invalid score: {}") ∷ []))),
    λ h. absurd h,
  )
  judge_iff message (some score) ui = elim (Bool-cases (in_unit fl score)) [
    | inl e ↦ rw e (λ h. (ground (arith, e), ground (arith, e)), λ h. refl)
    | inr e ↦ rw e (
      (λ h.
          absurd
            (omega (arith, h, length-append ui.errors ((message +s ": invalid score: {}") ∷ [])))),
      (λ h. absurd (ground (arith, e, h.0, h.1))),
    )
  ]

  judge_grows :
      (message : String) (score : Option F) (ui : UiInterface)
      → length ui.errors ≤ length (judge fl message score ui).errors
  unfolding add_error
  judge_grows message none ui =
      omega (arith, length-append ui.errors ((message +s ": invalid score: {}") ∷ []))
  judge_grows message (some score) ui = elim (Bool-cases (in_unit fl score)) [
    | inl e ↦ rw e (omega arith)
    | inr e ↦
        rw e (omega (arith, length-append ui.errors ((message +s ": invalid score: {}") ∷ [])))
  ]

  -- The end of a check of a sample adds no error exactly when the checker ran well and, where the task
  -- has a checker of its own, its output is a number between 0 and 1.
  pub on_checker-IsScore :
      (message : String) (custom : Bool) (result : ExecutionResult) (stdout : String)
      (ui : UiInterface)
      → (length (on_checker fl message custom result stdout ui).errors ≡ length ui.errors)
        ↔ ((is_success result.status ≡ true) × (custom ≡ true → IsScore (fl.parse stdout)))
  unfolding on_checker on_execution add_error
  on_checker-IsScore message false result stdout ui = elim (Bool-cases (is_success result.status)) [
    | inl e ↦ rw e (λ h. (refl, λ c. absurd (cc c)), λ h. refl)
    | inr e ↦ rw e (
      (λ h. absurd (omega (arith, h, length-append ui.errors (message ∷ [])))),
      (λ h. absurd (cc h.0)),
    )
  ]
  on_checker-IsScore message true result stdout ui = elim (Bool-cases (is_success result.status)) [
    | inl e ↦
        let inner = judge_iff message (fl.parse stdout) ui in
        rw e (λ h. (refl, λ c. inner.0 h), λ h. inner.1 (h.1 refl))
    | inr e ↦ rw e (
      (λ h. absurd (
          omega (
            arith,
            h,
            judge_grows message (fl.parse stdout) (add_error message ui),
            length-append ui.errors (message ∷ []),
          ))),
      (λ h. absurd (cc h.0)),
    )
  ]
