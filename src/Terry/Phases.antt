-- ===== src/Terry/Phases.antt =====
-- What the callbacks of a Terry solution do to its score and its status: python/uis/terry.py.
use task_maker.Prelude.{
  ℕ, zero, suc, ◌≡◌, refl, String, Bool, true, false, Option, none, some, List, [], ◌∷◌,
  if◌then◌else◌, Result, All, All-append, length, arith,
}
use task_maker.Prelude.Execs.{Exec, pure, lift, Keeps, Keeps-bind, ◌>>=◌}
use task_maker.Floats.{Floats, in_unit, InUnit}
use task_maker.Remote.{ExecutionResult, is_success}
use task_maker.Ui.{SignalNames}
use task_maker.Terry.{
  SolutionInfo, missing, correct, wrong, Phase, generation, validation, solution_run, check,
  TerryUi, change, info_of, add_solution, add_generation, add_phase, update, ended,
}
use task_maker.Terry.Json.{Json, is_text, item_of, truthy}
use task_maker.Terry.Score.{
  start, finish, Call, adding, generating_for, following, calling, is_null, judged, judge_all,
  cases_of, accepted, scored, parsed, compute_score, on_failure, settled, on_done, on_event, call,
  run_calls,
}

module _ {F : Type 0} (fl : Floats F) where
  All-change {κ} :
      (P : SolutionInfo F → Type κ) (f : SolutionInfo F → SolutionInfo F) (i : ℕ)
      (xs : List (SolutionInfo F))
      → ((x : SolutionInfo F) → P x → P (f x))
      → All P xs
      → All P (change fl f i xs)
  All-change P f i [] k h = h
  All-change P f zero (x ∷ xs) k (a, h) = (k x a, h)
  All-change P f (suc i) (x ∷ xs) k (a, h) = (a, All-change P f i xs k h)

  pub length-change :
      (f : SolutionInfo F → SolutionInfo F) (i : ℕ) (xs : List (SolutionInfo F))
      → length (change fl f i xs) ≡ length xs
  length-change f i [] = refl
  length-change f zero (x ∷ xs) = refl
  length-change f (suc i) (x ∷ xs) = omega (arith, length-change f i xs)

  -- Every score is between 0 and 1.
  abbrev pub Scores : TerryUi F → Type 0
  Scores t = All (λ info. InUnit fl info.score) t.infos

  Keeps-pure : {A : Type 0} (a : A) → Keeps Scores (pure a)
  Keeps-pure a = record { at = λ t h. h }

  Keeps-lift : {A : Type 0} (r : Result A) → Keeps Scores (lift r)
  Keeps-lift r = record { at = λ t h. h }

  Keeps-if :
      {A : Type 0} (b : Bool) (x y : Exec (TerryUi F) A)
      → (b ≡ true → Keeps Scores x)
      → Keeps Scores y
      → Keeps Scores (if b then x else y)
  Keeps-if true x y h k = h refl
  Keeps-if false x y h k = k

  Keeps-update :
      (i : ℕ) (f : SolutionInfo F → SolutionInfo F)
      → ((x : SolutionInfo F) → InUnit fl x.score → InUnit fl (f x).score)
      → Keeps Scores (update fl i f)
  Keeps-update i f k = record {
    at = λ t h. All-change (λ info. InUnit fl info.score) f i t.infos k h;
  }

  Keeps-lift_then :
      {A B : Type 0} (r : Result A) (next : A → Exec (TerryUi F) B)
      → ((a : A) → Keeps Scores (next a))
      → Keeps Scores (lift r >>= next)
  Keeps-lift_then r next k = Keeps-bind Scores (lift r) next (Keeps-lift r) k

  module _ (names : SignalNames) (loads : String → Option (Json F)) where
    judged-Keeps : (val feedback : Json F) → Keeps Scores (judged fl names loads val feedback)
    unfolding judged
    judged-Keeps val feedback = Keeps-lift_then _ _ (λ status.
        Keeps-if (is_text fl status "missing") _ _ (λ e. Keeps-pure missing)
          (Keeps-lift_then (item_of fl feedback "correct") _
            (λ right. Keeps-pure (if truthy fl right then correct else wrong))))

    judge_all-Keeps :
        (i : ℕ) (vals feedbacks : List (Json F))
        → Keeps Scores (judge_all fl names loads i vals feedbacks)
    unfolding judge_all
    judge_all-Keeps i [] feedbacks = Keeps-pure tt
    judge_all-Keeps i (val ∷ vals) [] = Keeps-pure tt
    judge_all-Keeps i (val ∷ vals) (feedback ∷ feedbacks) =
        Keeps-bind Scores _ _ (judged-Keeps val feedback) (λ status.
          Keeps-bind Scores _ _ (Keeps-update i _ (λ x h. h))
            (λ u. judge_all-Keeps i vals feedbacks))

    cases_of-Keeps :
        (outcome : Json F) (key : String) → Keeps Scores (cases_of fl names loads outcome key)
    cases_of-Keeps outcome key = Keeps-lift_then _ _ (λ part. Keeps-lift _)

    accepted-Keeps :
        (i : ℕ) (outcome : Json F) (x : F)
        → InUnit fl x
        → Keeps Scores (accepted fl names loads i outcome x)
    accepted-Keeps i outcome x u = Keeps-bind Scores _ _ (Keeps-update i _ (λ y h. u)) (λ _.
        Keeps-bind Scores _ _ (cases_of-Keeps outcome "validation") (λ validation.
          Keeps-bind Scores _ _ (cases_of-Keeps outcome "feedback") (λ feedback.
            Keeps-lift_then _ _
              (λ vals. Keeps-lift_then _ _ (λ feedbacks. judge_all-Keeps i vals feedbacks)))))

    in_unit-InUnit : (x : F) → in_unit fl x ≡ true → InUnit fl x
    in_unit-InUnit x h = ground arith

    scored-Keeps :
        (i : ℕ) (outcome score : Json F) → Keeps Scores (scored fl names loads i outcome score)
    scored-Keeps i outcome score =
        Keeps-if (is_null fl names loads score) _ _ (λ e. Keeps-update i _ (λ x h. h))
          (Keeps-lift_then _ _ (λ x.
            Keeps-if (in_unit fl x) _ _ (λ e. accepted-Keeps i outcome x (in_unit-InUnit x e))
              (Keeps-update i _ (λ y h. h))))

    parsed-Keeps : (i : ℕ) (o : Option (Json F)) → Keeps Scores (parsed fl names loads i o)
    parsed-Keeps i none = Keeps-update i _ (λ x h. h)
    parsed-Keeps i (some outcome) = Keeps-lift_then _ _ (λ score. scored-Keeps i outcome score)

    info_of-Keeps : (name : String) → Keeps Scores (info_of fl name)
    info_of-Keeps name = record { at = λ t h. h }

    compute_score-Keeps :
        (name text : String) → Keeps Scores (compute_score fl names loads name text)
    unfolding compute_score
    compute_score-Keeps name text =
        Keeps-bind Scores _ _ (info_of-Keeps name) (λ i. parsed-Keeps i (loads text))

    settled-Keeps :
        (phase : Phase) (name : String) (i : ℕ) (result : ExecutionResult)
        → Keeps Scores (settled fl names loads phase name i result)
    unfolding on_failure
    settled-Keeps phase name i result =
        Keeps-if (is_success result.status) _ _
          (λ e. Keeps-update i (λ info. record info { status = ended phase }) (λ x h. h))
          (Keeps-bind Scores _ _ (record { at = λ t h. h })
            (λ u.
              Keeps-bind Scores _ _ (Keeps-update i _ (λ x h. h))
                (λ v. Keeps-lift_then _ _ (λ why. Keeps-update i _ (λ x h. h)))))

    on_done-Keeps :
        (phase : Phase) (name : String) (i : ℕ) (result : ExecutionResult) (stdout : Result String)
        → Keeps Scores (on_done fl names loads phase name i result stdout)
    unfolding on_done
    on_done-Keeps check name i result stdout = Keeps-lift_then _ _ (λ outcome.
        Keeps-bind Scores _ _ (compute_score-Keeps name outcome)
          (λ u. settled-Keeps check name i result))
    on_done-Keeps generation name i result stdout = settled-Keeps generation name i result
    on_done-Keeps validation name i result stdout = settled-Keeps validation name i result
    on_done-Keeps solution_run name i result stdout = settled-Keeps solution_run name i result

    module _ (zero_unit : InUnit fl fl.zero) where
      call-Keeps : (c : Call) → Keeps Scores (call fl names loads c)
      unfolding call on_event add_solution add_generation add_phase
      call-Keeps (adding source_file) = record {
        at = λ t h. All-append (λ info. InUnit fl info.score) t.infos _ h (zero_unit, tt);
      }
      call-Keeps (generating_for name seed) =
          Keeps-bind Scores _ _ (info_of-Keeps name) (λ i.
            Keeps-bind Scores _ _ (Keeps-update i _ (λ x h. h)) (λ u. record { at = λ t h. h }))
      call-Keeps (following phase name) =
          Keeps-bind Scores _ _ (info_of-Keeps name) (λ i. record { at = λ t h. h })
      call-Keeps (calling phase name i start) = Keeps-update i _ (λ x h. h)
      call-Keeps (calling phase name i (finish result stdout)) =
          on_done-Keeps phase name i result stdout

      -- Whatever solutions are added and whatever callbacks run in whatever order, also where one raises, and
      -- whatever the checkers print: if every score is between 0 and 1 before, it is afterwards.
      pub run_calls-Scores :
          (calls : List Call) (t : TerryUi F) → Scores t → Scores (run_calls fl names loads calls t)
      unfolding run_calls
      run_calls-Scores [] t h = h
      run_calls-Scores (c ∷ calls) t h = run_calls-Scores calls _ ((call-Keeps c).at t h)
