-- ===== src/Dag/Within.antt =====
-- Statements of a registration that keep a property of the state and return a value that has another.
use task_maker.Prelude.{
  ℕ, ◌≤◌, ◌≡◌, refl, sym, ap, subst, String, Bool, true, false, Option, some, Dict, values,
  string_eq, All, Error, Result, ok, err, ok-injective, or_raise-ok, arith, if◌then◌else◌,
}
use task_maker.Prelude.Execs.{Exec, continue, pure, throw, lift, fetch, ◌>>=◌}
use task_maker.Dag.{Input, Dag}
use task_maker.Dag.Ordered.{BelowInput, Given, Ordered}
use task_maker.Dag.Safe.{size, Safe}

-- `method` keeps `I`, and what it returns meets `Q`.
pub record Within {F A : Type 0} (I : Dag F → Type 0) (method : Exec (Dag F) A) (Q : A → Type 0)
    : Type 0 where
  pub at : (d : Dag F) → I d → I (method d).1 × ((a : A) → (method d).0 ≡ ok a → Q a)

module _ {F A B : Type 0} (I : Dag F → Type 0) (Q : A → Type 0) (R : B → Type 0) where
  continue-Within :
      (r : Result A) (next : A → Exec (Dag F) B) (e : Dag F)
      → I e
      → ((a : A) → r ≡ ok a → Q a)
      → ((a : A) → Q a → Within I (next a) R)
      → I (continue r next e).1 × ((b : B) → (continue r next e).0 ≡ ok b → R b)
  continue-Within (err x) next e i q k = (i, λ b p. absurd cc)
  continue-Within (ok a) next e i q k = (k a (q a refl)).at e i

  pub Within->>= :
      (first : Exec (Dag F) A) (next : A → Exec (Dag F) B)
      → Within I first Q
      → ((a : A) → Q a → Within I (next a) R)
      → Within I (first >>= next) R
  unfolding ◌>>=◌
  Within->>= first next w k = record {
    at = λ d i. continue-Within (first d).0 next (first d).1 (w.at d i).0 (w.at d i).1 k;
  }

module _ {F A : Type 0} (I : Dag F → Type 0) (Q : A → Type 0) where
  pub Within-pure : (a : A) → Q a → Within I (pure a) Q
  Within-pure a h = record { at = λ d i. (i, λ b q. subst Q (ok-injective q) h) }

  pub Within-throw : (e : Error) → Within I (throw e) Q
  Within-throw e = record { at = λ d i. (i, λ a q. absurd cc) }

  pub Within-lift : (r : Result A) → ((a : A) → r ≡ ok a → Q a) → Within I (lift r) Q
  Within-lift r h = record { at = λ d i. (i, h) }

  pub Within-fetch :
      (g : Dag F → Option A) (e : Error)
      → ((d : Dag F) (a : A) → I d → g d ≡ some a → Q a)
      → Within I (fetch g e) Q
  Within-fetch g e h = record { at = λ d i. (i, λ a q. h d a i (or_raise-ok (g d) e q)) }

  pub Within-if :
      (b : Bool) (x y : Exec (Dag F) A)
      → Within I x Q
      → Within I y Q
      → Within I (if b then x else y) Q
  Within-if true x y h k = h
  Within-if false x y h k = k

-- A method that changes nothing.
pub Safe_of_Within :
    {F A : Type 0} (n : ℕ) (method : Exec (Dag F) A) (Q : ℕ → A → Type 0)
    → ((d : Dag F) → Within (λ x. x ≡ d) method (Q n))
    → ((m : ℕ) (a : A) → n ≤ m → Q n a → Q m a)
    → Safe n method Q
Safe_of_Within n method Q w mono = record {
  at = λ d o l.
      let r = (w d).at d refl in
      let e : (method d).1 ≡ d = r.0 in
      let f : size (method d).1 ≡ size d = ap size e in
      (
        subst Ordered (sym e) o,
        omega arith,
        λ a q. mono (size (method d).1) a (omega arith) (r.1 a q),
      );
}

abbrev pub InputsBelow : ℕ → Dict String (Option Input) → Type 0
InputsBelow n d = All (Given (BelowInput n)) (values d)
