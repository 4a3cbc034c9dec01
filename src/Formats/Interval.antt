-- ===== src/Formats/Interval.antt =====
-- The values that a constraint accepts.
use task_maker.Prelude.{
  ◌≡◌, refl, Bool, true, false, not, ◌&&◌, Option, none, some, ◌↔◌, if◌then◌else◌,
}
use task_maker.Floats.{Floats}
use task_maker.Formats.{Constraint, accept}

module _ {F : Type 0} (fl : Floats F) where
  -- Two numbers that compare, as they do unless one is a NaN: one is below the other or equal to it.
  pub record Compares (a b : F) : Type 0 where
    pub lt_iff : (fl.lt a b ≡ false) ↔ (fl.le b a ≡ true)
    pub le_iff : (fl.le a b ≡ false) ↔ (fl.lt b a ≡ true)

  -- a <= b or a < b
  abbrev pub Below : Bool → F → F → Type 0
  Below true a b = fl.le a b ≡ true
  Below false a b = fl.lt a b ≡ true

  abbrev pub AboveLower : Constraint F → F → Type 0
  AboveLower c x = elim c.lower_bound [ none ↦ Unit | some l ↦ Below c.more_or_equal l x ]

  abbrev pub BelowUpper : Constraint F → F → Type 0
  BelowUpper c x = elim c.upper_bound [ none ↦ Unit | some u ↦ Below c.less_or_equal x u ]

  abbrev pub Comparable : Option F → F → Type 0
  Comparable none x = Unit
  Comparable (some b) x = Compares x b × Compares b x

  not_iff : (b : Bool) → (not b ≡ true) ↔ (b ≡ false)
  not_iff true = (λ p. absurd cc, λ p. absurd cc)
  not_iff false = (λ p. refl, λ p. refl)

  and_iff : (a b : Bool) → (a && b ≡ true) ↔ ((a ≡ true) × (b ≡ true))
  and_iff true true = (λ p. (refl, refl), λ p. refl)
  and_iff true false = (λ p. absurd cc, λ p. p.1)
  and_iff false b = (λ p. absurd cc, λ p. p.0)

  lower_iff :
      (or_equal : Bool) (x l : F)
      → Compares x l
      → ((if or_equal then not (fl.lt x l) else not (fl.le x l)) ≡ true) ↔ Below or_equal l x
  lower_iff true x l c = (λ p. c.lt_iff.0 ((not_iff _).0 p), λ p. (not_iff _).1 (c.lt_iff.1 p))
  lower_iff false x l c = (λ p. c.le_iff.0 ((not_iff _).0 p), λ p. (not_iff _).1 (c.le_iff.1 p))

  lower_bound_iff :
      (o : Option F) (or_equal : Bool) (x : F)
      → Comparable o x
      → (elim o [ none ↦ true | some l ↦ if or_equal then not (fl.lt x l) else not (fl.le x l) ]
          ≡ true)
        ↔ elim o [ none ↦ Unit {0} | some l ↦ Below or_equal l x ]
  lower_bound_iff none or_equal x c = (λ p. tt, λ p. refl)
  lower_bound_iff (some l) or_equal x c = lower_iff or_equal x l c.0

  upper_iff :
      (o : Option F) (or_equal : Bool) (x : F)
      → Comparable o x
      → (elim o [ none ↦ true | some u ↦ if or_equal then not (fl.lt u x) else not (fl.le u x) ]
          ≡ true)
        ↔ elim o [ none ↦ Unit {0} | some u ↦ Below or_equal x u ]
  upper_iff none or_equal x c = (λ p. tt, λ p. refl)
  upper_iff (some u) or_equal x c = lower_iff or_equal u x c.1

  -- A constraint accepts a number that compares with its bounds exactly where the number lies above
  -- the lower bound and below the upper one, each strictly or not as the constraint says.
  pub accept_iff :
      (c : Constraint F) (x : F)
      → Comparable c.lower_bound x
      → Comparable c.upper_bound x
      → (accept fl c x ≡ true) ↔ (AboveLower c x × BelowUpper c x)
  unfolding accept
  accept_iff c x l u =
      let a = lower_bound_iff c.lower_bound c.more_or_equal x l in
      let b = upper_iff c.upper_bound c.less_or_equal x u in
      (
        (λ p. let q = (and_iff _ _).0 p in (a.0 q.0, b.0 q.1)),
        (λ p. (and_iff _ _).1 (a.1 p.0, b.1 p.1)),
      )
