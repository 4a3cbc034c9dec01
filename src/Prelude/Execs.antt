-- ===== src/Prelude/Execs.antt =====
-- Statements that change a state and may raise.
use mathlib.Core.Path.{◌≡◌, refl, ap}
use mathlib.Core.Bool.{Bool, true, false}
use task_maker.Prelude.Tests.{if◌then◌else◌}
use mathlib.Core.Option.{Option, none, some}
use Prim.Native.String.{String}
use task_maker.Prelude.Results.{Error, runtime_error, Result, ok, err, or_raise}

-- What was written before a raise stays written, so the state comes back beside the error too.
abbrev pub Exec : Type 0 → Type 0 → Type 0
Exec S A = S → Result A × S

module _ {S A : Type 0} where
  abbrev pub pure : A → Exec S A
  pure a s = (ok a, s)

  abbrev pub lift : Result A → Exec S A
  lift r s = (r, s)

  abbrev pub get : (S → A) → Exec S A
  get f s = (ok (f s), s)

-- A look-up that raises `e` where it finds nothing.
abbrev pub fetch : {S A : Type 0} → (S → Option A) → Error → Exec S A
fetch f e s = (or_raise (f s) e, s)

abbrev pub modify : {S : Type 0} → (S → S) → Exec S (Unit {0})
modify f s = (ok tt, f s)

-- `raise e`
abbrev pub throw : {S A : Type 0} → Error → Exec S A
throw e s = (err e, s)

module _ {S A B : Type 0} where
  abbrev pub continue : Result A → (A → Exec S B) → Exec S B
  continue (ok a) f s = f a s
  continue (err e) f s = (err e, s)

  infixl 5 ◌>>=◌ ◌>>◌
  unfoldable pub ◌>>=◌ : Exec S A → (A → Exec S B) → Exec S B
  ◌>>=◌ m f s = continue (m s).0 f (m s).1

  abbrev pub ◌>>◌ : Exec S A → Exec S B → Exec S B
  m >> n = m >>= λ _. n

-- A method keeps a property of the state, an exception included.
pub record Keeps {κ} {S A : Type 0} (P : S → Type κ) (method : Exec S A) : Type κ where
  pub at : (before : S) → P before → P (method before).1

module _ {κ} {S A B : Type 0} (P : S → Type κ) where
  continue-Keeps :
      (r : Result A) (f : A → Exec S B)
      → ((a : A) → Keeps P (f a))
      → (s : S) → P s
      → P (continue r f s).1
  continue-Keeps (ok a) f k s h = (k a).at s h
  continue-Keeps (err e) f k s h = h

  pub Keeps-bind :
      (first : Exec S A) (next : A → Exec S B)
      → Keeps P first
      → ((a : A) → Keeps P (next a))
      → Keeps P (first >>= next)
  unfolding ◌>>=◌
  Keeps-bind first next k l = record {
    at = λ before h. continue-Keeps (first before).0 next l (first before).1 (k.at before h);
  }

module _ {κ} {S A B : Type 0} (P : S → Type κ) (k : A → Exec S B) where
  -- The rest of a block may use what it was computed from.
  pub lift_at :
      (r : Result A) (s : S) → P s → ((a : A) → r ≡ ok a → P (k a s).1) → P ((lift r >>= k) s).1
  unfolding ◌>>=◌
  lift_at (ok a) s h f = f a refl
  lift_at (err e) s h f = h

  found_at :
      (o : Option A) (e : Error) (s : S)
      → P s
      → ((a : A) → o ≡ some a → P (k a s).1)
      → P (continue (or_raise o e) k s).1
  found_at none e s h f = h
  found_at (some a) e s h f = f a refl

  pub fetch_at :
      (g : S → Option A) (e : Error) (s : S)
      → P s
      → ((a : A) → g s ≡ some a → P (k a s).1)
      → P ((fetch g e >>= k) s).1
  unfolding ◌>>=◌
  fetch_at g e s h f = found_at (g s) e s h f

pub if_at {κ} :
    {S A : Type 0} (P : S → Type κ) (b : Bool) (m n : Exec S A) (s : S)
    → (b ≡ true → P (m s).1)
    → (b ≡ false → P (n s).1)
    → P ((if b then m else n) s).1
if_at P true m n s h k = h refl
if_at P false m n s h k = k refl

module _ {S A B : Type 0} (k : A → Exec S B) where
  pub lift_ok : (r : Result A) (a : A) (s : S) → r ≡ ok a → (lift r >>= k) s ≡ k a s
  unfolding ◌>>=◌
  lift_ok r a s e = ap (λ x. continue x k s) e

  pub fetch_ok :
      (g : S → Option A) (e : Error) (a : A) (s : S) → g s ≡ some a → (fetch g e >>= k) s ≡ k a s
  unfolding ◌>>=◌
  fetch_ok g e a s p = ap (λ x. continue (or_raise x e) k s) p

module _ {S A : Type 0} where
  abbrev pub handled : Result A → (String → Exec S A) → Exec S A
  handled (err (runtime_error what)) handler s = handler what s
  handled r handler s = (r, s)

  -- try: ... except RuntimeError as ex: ...
  unfoldable pub catch_runtime : Exec S A → (String → Exec S A) → Exec S A
  catch_runtime m handler s = handled (m s).0 handler (m s).1
