-- ===== src/Terry/Status.antt =====
-- The status that the callbacks of a Terry solution leave: python/uis/terry.py.
use task_maker.Prelude.{
  ℕ, zero, suc, ◌≡◌, refl, sym, ap, ◌∙◌, ◌<◌, String, Bool, true, false, Option, none, some, List,
  [], ◌∷◌, if◌then◌else◌, Result, ok, err, length, arith, subst, Bool-cases, inl, inr,
}
use task_maker.Prelude.Execs.{◌>>=◌}
use task_maker.Floats.{Floats}
use task_maker.Remote.{ExecutionResult, is_success}
use task_maker.Ui.{SignalNames, result_to_str}
use task_maker.Terry.{
  SolutionStatus, SolutionInfo, failed, Phase, generation, validation, solution_run, check, TerryUi,
  change, begun, ended, solved, failure_message,
}
use task_maker.Terry.Json.{Json}
use task_maker.Terry.Score.{
  Event, start, finish, calling, settled, on_failure, on_done, on_event, call, run_calls,
}
use task_maker.Terry.Phases.{length-change}

abbrev pub status_at : {F : Type 0} → ℕ → List (SolutionInfo F) → Option SolutionStatus
status_at i [] = none
status_at zero (x ∷ xs) = some x.status
status_at (suc i) (x ∷ xs) = status_at i xs

-- What the status is after a callback, by that callback alone.
abbrev pub told : Phase → Event → SolutionStatus
told phase start = begun phase
told phase (finish result stdout) = if is_success result.status then ended phase else failed

abbrev pub is_check : Phase → Bool
is_check check = true
is_check _ = false

module _ {F : Type 0} (fl : Floats F) where
  set_status :
      (f : SolutionInfo F → SolutionInfo F) (s : SolutionStatus) (i : ℕ)
      (xs : List (SolutionInfo F))
      → ((x : SolutionInfo F) → (f x).status ≡ s)
      → i < length xs
      → status_at i (change fl f i xs) ≡ some s
  set_status f s i [] k h = absurd (omega arith)
  set_status f s zero (x ∷ xs) k h = ap some (k x)
  set_status f s (suc i) (x ∷ xs) k h = set_status f s i xs k (omega arith)

  keep_status :
      (f : SolutionInfo F → SolutionInfo F) (i : ℕ) (xs : List (SolutionInfo F))
      → ((x : SolutionInfo F) → (f x).status ≡ x.status)
      → status_at i (change fl f i xs) ≡ status_at i xs
  keep_status f i [] k = refl
  keep_status f zero (x ∷ xs) k = ap some (k x)
  keep_status f (suc i) (x ∷ xs) k = keep_status f i xs k

  module _ (names : SignalNames) (loads : String → Option (Json F)) where
    -- The solution's status, and that it stays one of the known ones.
    Says : SolutionStatus → ℕ → TerryUi F → TerryUi F → Type 0
    Says s i t u = (status_at i u.infos ≡ some s) × (length u.infos ≡ length t.infos)

    explained :
        (phase : Phase) (name : String) (i : ℕ) (result : ExecutionResult) (why : Result String)
        (t : TerryUi F)
        → i < length t.infos
        → result_to_str names result ≡ why
        → Says failed i t (on_failure fl names loads phase name i result t).1
    unfolding on_failure ◌>>=◌ Says
    explained phase name i result (err e) t h p = rw p (
      set_status (λ info. record info { status = failed }) failed i t.infos (λ x. refl) h,
      length-change fl (λ info. record info { status = failed }) i t.infos,
    )
    explained phase name i result (ok why) t h p =
        let mark : SolutionInfo F → SolutionInfo F = λ info. record info { status = failed } in
        let tell : SolutionInfo F → SolutionInfo F =
          λ info. record info { message = failure_message phase why } in
        let infos = change fl mark i t.infos in
        rw p (
          keep_status tell i infos (λ x. refl) ∙ set_status mark failed i t.infos (λ x. refl) h,
          length-change fl tell i infos ∙ length-change fl mark i t.infos,
        )

    settled-Says :
        (phase : Phase) (name : String) (i : ℕ) (result : ExecutionResult) (stdout : Result String)
        (t : TerryUi F)
        → i < length t.infos
        → Says
            (told phase (finish result stdout))
            i
            t
            (settled fl names loads phase name i result t).1
    unfolding Says
    settled-Says phase name i result stdout t h = elim (Bool-cases (is_success result.status)) [
      | inl e ↦ rw e (set_status _ _ i t.infos (λ x. refl) h, length-change fl _ i t.infos)
      | inr e ↦ rw e (explained phase name i result _ t h refl)
    ]

    pub on_event-told :
        (phase : Phase) (name : String) (i : ℕ) (event : Event) (t : TerryUi F)
        → is_check phase ≡ false
        → i < length t.infos
        → (status_at i (on_event fl names loads phase name i event t).1.infos
            ≡ some (told phase event))
          × (length (on_event fl names loads phase name i event t).1.infos ≡ length t.infos)
    unfolding on_event on_done Says
    on_event-told phase name i start t c h = (
      set_status (λ info. record info { status = begun phase }) (begun phase) i t.infos (λ x. refl)
          h,
      length-change fl (λ info. record info { status = begun phase }) i t.infos,
    )
    on_event-told check name i (finish result stdout) t c h = absurd cc
    on_event-told generation name i (finish result stdout) t c h =
        settled-Says generation name i result stdout t h
    on_event-told validation name i (finish result stdout) t c h =
        settled-Says validation name i result stdout t h
    on_event-told solution_run name i (finish result stdout) t c h =
        settled-Says solution_run name i result stdout t h

    -- The failure of a validation is forgotten: when the solution, which does not wait for the validation,
    -- starts and ends well after the validation failed, its status is that of a solution that ended well.
    pub run_calls-forgets :
        (name : String) (i : ℕ) (invalid fine : ExecutionResult) (out : Result String)
        (t : TerryUi F)
        → i < length t.infos
        → is_success invalid.status ≡ false
        → is_success fine.status ≡ true
        → status_at i
            (run_calls fl names loads
              (calling validation name i (finish invalid out)
                ∷ calling solution_run name i start
                ∷ calling solution_run name i (finish fine out)
                ∷ [])
              t).infos
          ≡ some solved
    unfolding run_calls call
    run_calls-forgets name i invalid fine out t h n y =
        let t1 = (on_event fl names loads validation name i (finish invalid out) t).1 in
        let t2 = (on_event fl names loads solution_run name i start t1).1 in
        let first = on_event-told validation name i (finish invalid out) t refl h in
        let second =
          on_event-told solution_run name i start t1 refl (subst (λ k. i < k) (sym first.1) h) in
        let third =
          on_event-told solution_run name i (finish fine out) t2 refl
            (subst (λ k. i < k) (sym (second.1 ∙ first.1)) h) in
        third.0 ∙ rw y refl
