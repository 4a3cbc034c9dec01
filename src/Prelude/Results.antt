-- ===== src/Prelude/Results.antt =====
-- Python's exceptions as values, and methods that change an object and may raise.
use Prim.Native.Nat.{ℕ}
use Prim.Native.String.{String}
use mathlib.Core.Path.{◌≡◌, refl, ap, subst}
use task_maker.Prelude.Tests.{if◌then◌else◌}
use mathlib.Core.Bool.{Bool, true, false}
use mathlib.Core.Option.{Option, none, some}

-- A `ValueError` carries the format string of its message; one of the parser of cases.gen also
-- the line number that is put into it.
pub data Error : Type 0 where
  key_error index_error type_error attribute_error zero_division file_not_found : Error
  value_error runtime_error : String → Error
  value_error_at : String → ℕ → Error

pub data Result {ℓ} (A : Type ℓ) : Type ℓ where
  err : Error → Result A
  ok : A → Result A

-- `e` is raised where the value is missing.
abbrev pub or_raise {ℓ} : {A : Type ℓ} → Option A → Error → Result A
or_raise none e = err e
or_raise (some a) e = ok a

-- `if not test: raise e`
abbrev pub require : Bool → Error → Result (Unit {0})
require false e = err e
require true e = ok tt

module _ {ℓ κ} {A : Type ℓ} {B : Type κ} where
  infixl 5 ◌>>=◌
  unfoldable pub ◌>>=◌ : Result A → (A → Result B) → Result B
  err e >>= next = err e
  ok a >>= next = next a

  -- A chain that returned went through its first part.
  pub ok-inv_>>= :
      (first : Result A) (next : A → Result B) {r : B}
      → (first >>= next) ≡ ok r
      → (a : A) × (next a ≡ ok r) × (first ≡ ok a)
  unfolding ◌>>=◌
  ok-inv_>>= (err e) next h = cc
  ok-inv_>>= (ok a) next h = (a, h, refl)

infixl 5 ◌>>◌
abbrev pub ◌>>◌ {κ} : {B : Type κ} → Result (Unit {0}) → Result B → Result B
check >> next = check >>= λ _. next

pub ok-injective {ℓ} : {A : Type ℓ} {a b : A} → ok a ≡ ok b → a ≡ b
ok-injective p = cc

-- What holds of the value, if one is returned.
pub record Holds {ℓ κ} {A : Type ℓ} (P : A → Type κ) (r : Result A) : Type (ℓ ⊔ κ) where
  pub at : (a : A) → r ≡ ok a → P a

module _ {ℓ κ} {A : Type ℓ} (P : A → Type κ) where
  pub Holds-ok : (a : A) → P a → Holds P (ok a)
  Holds-ok a h = record { at = λ b q. subst P (ok-injective q) h }

  pub Holds-err : (e : Error) → Holds P (err e)
  Holds-err e = record { at = λ b q. absurd cc }

  pub Holds-if : (b : Bool) (x y : Result A) → Holds P x → Holds P y → Holds P (if b then x else y)
  Holds-if true x y h k = h
  Holds-if false x y h k = k

module _ {ℓ μ κ} {A : Type ℓ} {B : Type μ} (P : B → Type κ) where
  pub Holds->>= :
      (r : Result A) (next : A → Result B)
      → ((a : A) → r ≡ ok a → Holds P (next a))
      → Holds P (r >>= next)
  unfolding ◌>>=◌
  Holds->>= (err e) next h = Holds-err P e
  Holds->>= (ok a) next h = h a refl

pub or_raise-ok {ℓ} :
    {A : Type ℓ} (o : Option A) (e : Error) {a : A} → or_raise o e ≡ ok a → o ≡ some a
or_raise-ok none e q = absurd cc
or_raise-ok (some b) e q = ap some (ok-injective q)

pub require-ok : (b : Bool) (e : Error) {u : Unit {0}} → require b e ≡ ok u → b ≡ true
require-ok true e q = refl
require-ok false e q = absurd cc
