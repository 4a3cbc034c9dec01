-- ===== src/Prelude/Dicts.antt =====
-- Python's `dict`: keys in the order of their insertion, a write to a known key in its place.
use Prim.Native.Nat.{suc, ◌+◌, ◌≤◌}
use mathlib.Core.Path.{◌≡◌, refl, ap, subst}
use mathlib.Core.Logic.{inl, inr}
use mathlib.Core.Bool.{Bool, true, false}
use mathlib.Core.List.{List, [], ◌∷◌}
use mathlib.Core.Option.{Option, none, some, some-injective}
use native.Mathlib.Omega.{arith}
use task_maker.Prelude.Tests.{Eq, ◌==◌, Bool-cases, if◌then◌else◌}
use task_maker.Prelude.Lists.{All, length}

abbrev pub Dict {ℓ} : Type 0 → Type ℓ → Type ℓ
Dict K V = List (K × V)

module _ {ℓ} {K : Type 0} {V : Type ℓ} where
  abbrev pub keys : Dict K V → List K
  keys [] = []
  keys ((k, v) ∷ d) = k ∷ keys d

  abbrev pub values : Dict K V → List V
  values [] = []
  values ((k, v) ∷ d) = v ∷ values d

module _ {ℓ} {K : Type 0} {V : Type ℓ} ⦃e : Eq K⦄ where
  -- d.get(k)
  unfoldable pub lookup : K → Dict K V → Option V
  lookup k [] = none
  lookup k ((j, v) ∷ d) = if j == k then some v else lookup k d

  -- k in d
  abbrev pub has : K → Dict K V → Bool
  has k d = elim (lookup k d) [ none ↦ false | some v ↦ true ]

  -- d[k] = v
  unfoldable pub insert : K → V → Dict K V → Dict K V
  insert k v [] = (k, v) ∷ []
  insert k v ((j, w) ∷ d) = if j == k then (j, v) ∷ d else (j, w) ∷ insert k v d

  pub lookup-insert :
      (k j : K) (v : V) (d : Dict K V)
      → lookup j (insert k v d) ≡ (if k == j then some v else lookup j d)
  unfolding lookup insert
  lookup-insert k j v [] = refl
  lookup-insert k j v ((i, w) ∷ d) =
      ground (arith, e.beq_iff k j, e.beq_iff i k, e.beq_iff i j, lookup-insert k j v d)

  pub lookup-insert_self : (k : K) (v : V) (d : Dict K V) → lookup k (insert k v d) ≡ some v
  lookup-insert_self k v d = ground (arith, lookup-insert k k v d, e.beq_iff k k)

  -- A write to a known key keeps the keys and their order.
  pub keys-insert :
      (k : K) (v : V) (d : Dict K V) (w : V) → lookup k d ≡ some w → keys (insert k v d) ≡ keys d
  unfolding lookup insert
  keys-insert k v [] w h = absurd (grind arith)
  keys-insert k v ((i, x) ∷ d) w h = elim (Bool-cases (i == k)) [
    | inl same ↦ rw same
    | inr other ↦ rw other (ap (λ l. i ∷ l) (keys-insert k v d w (rw other at h)))
  ]

  pub length-insert :
      (k : K) (v : V) (d : Dict K V) (w : V)
      → lookup k d ≡ some w
      → length (insert k v d) ≡ length d
  unfolding lookup insert
  length-insert k v [] w h = absurd (grind arith)
  length-insert k v ((i, x) ∷ d) w h = elim (Bool-cases (i == k)) [
    | inl same ↦ rw same
    | inr other ↦ rw other (ap suc (length-insert k v d w (rw other at h)))
  ]

  pub length-insert-le : (k : K) (v : V) (d : Dict K V) → length (insert k v d) ≤ length d + 1
  unfolding insert
  length-insert-le k v [] = omega arith
  length-insert-le k v ((i, x) ∷ d) = ground (arith, length-insert-le k v d)

  module _ {κ} (P : V → Type κ) where
    pub All-insert :
        (k : K) (v : V) (d : Dict K V) → P v → All P (values d) → All P (values (insert k v d))
    unfolding insert
    All-insert k v [] p h = (p, tt)
    All-insert k v ((i, x) ∷ d) p h = elim (Bool-cases (i == k)) [
      | inl same ↦ rw same (p, h.1)
      | inr other ↦ rw other (h.0, All-insert k v d p h.1)
    ]

    pub All-lookup : (k : K) (d : Dict K V) (v : V) → lookup k d ≡ some v → All P (values d) → P v
    unfolding lookup
    All-lookup k [] v q h = absurd (grind arith)
    All-lookup k ((i, x) ∷ d) v q h = elim (Bool-cases (i == k)) [
      | inl same ↦ subst P (some-injective x v (rw same at q)) h.0
      | inr other ↦ All-lookup k d v (rw other at q) h.1
    ]

  -- del d[k]
  unfoldable pub remove : K → Dict K V → Dict K V
  remove k [] = []
  remove k ((j, v) ∷ d) = let rest = remove k d in if j == k then rest else (j, v) ∷ rest

  pub lookup-remove :
      (k j : K) (d : Dict K V) → lookup j (remove k d) ≡ (if k == j then none else lookup j d)
  unfolding lookup remove
  lookup-remove k j [] = ground arith
  lookup-remove k j ((i, w) ∷ d) =
      ground (arith, e.beq_iff k j, e.beq_iff i k, e.beq_iff i j, lookup-remove k j d)
