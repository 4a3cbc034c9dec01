-- ===== src/Cases/Reading.antt =====
-- What a CONSTRAINT command with one operator means.
use task_maker.Prelude.{
  ℕ, String, starts_with, ◌≡◌, refl, ◌↔◌, ◌⊎◌, inl, inr, Bool, true, Option, none, some, [], ◌∷◌,
  nat_beq, ok, Holds, Holds->>=, Holds-ok, Holds-err, ◌>>=◌, Bool-cases, none-ne-some, sym, subst,
}
use Prim.Native.Char.{code}
use task_maker.Floats.{Floats}
use task_maker.Formats.{Constraint, Numbers, accept}
use task_maker.Formats.Interval.{Below, AboveLower, BelowUpper, Comparable, accept_iff}
use task_maker.Cases.Limits.{
  Sign, less, greater, sign, variable, one_bound, right_bound, left_bound, parse_constraint,
}

variable_dollar :
    (lineno : ℕ) (w : String) {s : String} → variable lineno w ≡ ok s → starts_with w "$" ≡ true
unfolding starts_with
variable_dollar lineno String.[] q = absurd cc
variable_dollar lineno (String.◌∷◌ c w) q = elim (Bool-cases (nat_beq (code c) b'$')) [
  | inl e ↦ rw e refl
  | inr e ↦ absurd (let r = rw e at q in cc)
]

module _ {F : Type 0} (fl : Floats F) (n : Numbers F) where
  -- A word read as a number, or as the value `x` of the variable.
  abbrev pub value : F → Option F → F
  value x none = x
  value x (some v) = v

  -- a < b, a <= b, a > b or a >= b
  abbrev pub Relates : Sign → Bool → F → F → Type 0
  Relates less or_equal a b = Below fl or_equal a b
  Relates greater or_equal a b = Below fl or_equal b a

  abbrev Reads : F → Sign → Bool → F → F → Constraint F → Type 0
  Reads x sg or_equal left right c =
      (AboveLower fl c x × BelowUpper fl c x) ↔ Relates sg or_equal left right

  module _ (dollar : (w : String) → starts_with w "$" ≡ true → fl.parse w ≡ none) (x : F)
      (lineno : ℕ) (a b : String) (or_equal : Bool) where
    Reads-right_bound :
        (sg : Sign) (right : Option F)
        → Holds
            (Reads x sg or_equal x (value x right))
            (right_bound fl n lineno a sg or_equal right)
    Reads-right_bound sg none = Holds-err _ _
    Reads-right_bound less (some r) =
        Holds->>= (Reads x less or_equal x r) _ _
          (λ var q. Holds-ok (Reads x less or_equal x r) _ ((λ p. p.1), (λ p. (tt, p))))
    Reads-right_bound greater (some r) =
        Holds->>= (Reads x greater or_equal x r) _ _
          (λ var q. Holds-ok (Reads x greater or_equal x r) _ ((λ p. p.0), (λ p. (p, tt))))

    Reads-left_bound :
        (sg : Sign) (left : Option F)
        → (left ≡ none) ⊎ (sg ≡ less)
        → Holds
            (Reads x sg or_equal (value x left) (value x (fl.parse b)))
            (left_bound fl n lineno a sg or_equal b left)
    Reads-left_bound sg none side = Reads-right_bound sg (fl.parse b)
    Reads-left_bound sg (some l) (inl e) = absurd (none-ne-some (sym e))
    Reads-left_bound greater (some l) (inr e) = absurd cc
    Reads-left_bound less (some l) (inr e) =
        Holds->>= (Reads x less or_equal l (value x (fl.parse b))) _ _ (λ var q.
          Holds-ok (Reads x less or_equal l (value x (fl.parse b))) _ (
            subst (λ r. Below fl or_equal l x × Unit {0} ↔ Below fl or_equal l (value x r))
              (sym (dollar b (variable_dollar lineno b q))) ((λ p. p.0), (λ p. (p, tt)))))

    -- A CONSTRAINT of three words that is parsed, and whose operator points to the right if its first
    -- word is a number, accepts a number that compares with its bounds exactly where the relation
    -- holds that the words spell with the number in the place of the variable. It is assumed that no
    -- word beginning with a dollar is a number.
    pub parse_constraint-Relates :
        (op : String) (sg : Sign) (c : Constraint F)
        → sign op ≡ some (sg, or_equal)
        → (fl.parse a ≡ none) ⊎ (sg ≡ less)
        → parse_constraint fl n lineno (a ∷ op ∷ b ∷ []) ≡ ok c
        → Comparable fl c.lower_bound x
        → Comparable fl c.upper_bound x
        → (accept fl c x ≡ true) ↔ Relates sg or_equal (value x (fl.parse a)) (value x (fl.parse b))
    unfolding parse_constraint one_bound ◌>>=◌
    parse_constraint-Relates op sg c o side q l u =
        let r : Reads x sg or_equal (value x (fl.parse a)) (value x (fl.parse b)) c =
          (Reads-left_bound sg (fl.parse a) side).at c (rw o at q) in
        let i = accept_iff fl c x l u in ((λ p. r.0 (i.0 p)), (λ p. i.1 (r.1 p)))
