-- ===== src/Ioi/Range.antt =====
-- Combined scores stay between 0 and 1.
use task_maker.Prelude.{
  ℕ, suc, ◌+◌, ◌<◌, ◌≡◌, true, false, List, [], ◌∷◌, length, All, ok, ok-injective, subst, arith,
  if◌then◌else◌,
}
use native.Mathlib.Nat.{add-zero}
use task_maker.Floats.{Floats, IsFloat, InUnit, exact, sum_from, min_from, max_from}
use task_maker.Ioi.{ScoreMode}
use task_maker.Ioi.Scoring.{combine}

module _ {F : Type 0} (fl : Floats F) (laws : IsFloat fl) where
  if_InUnit : (b : _) (x y : F) → InUnit fl x → InUnit fl y → InUnit fl (if b then x else y)
  if_InUnit true x y p q = p
  if_InUnit false x y p q = q

  pub min_from-InUnit :
      (m : F) (l : List F) → InUnit fl m → All (InUnit fl) l → InUnit fl (min_from fl m l)
  min_from-InUnit m [] h k = h
  min_from-InUnit m (x ∷ l) h k =
      min_from-InUnit (if fl.lt x m then x else m) l (if_InUnit (fl.lt x m) x m k.0 h) k.1

  pub max_from-InUnit :
      (m : F) (l : List F) → InUnit fl m → All (InUnit fl) l → InUnit fl (max_from fl m l)
  max_from-InUnit m [] h k = h
  max_from-InUnit m (x ∷ l) h k =
      max_from-InUnit (if fl.lt m x then x else m) l (if_InUnit (fl.lt m x) x m k.0 h) k.1

  -- A sum of n scores lies between 0 and n.
  sum_from_range :
      (acc : F) (n : ℕ) (l : List F)
      → fl.le fl.zero acc ≡ true
      → fl.le acc (fl.of_ℕ n) ≡ true
      → n + length l < exact
      → All (InUnit fl) l
      → (fl.le fl.zero (sum_from fl acc l) ≡ true)
        × (fl.le (sum_from fl acc l) (fl.of_ℕ (n + length l)) ≡ true)
  sum_from_range acc n [] p q e h = (p, rw (add-zero n) q)
  sum_from_range acc n (x ∷ l) p q e h =
      let same : n + suc (length l) ≡ n + 1 + length l = omega arith in
      rw same (
        sum_from_range (fl.add acc x) (n + 1) l (laws.add_nonneg acc x p h.0.0)
          (laws.add_le acc x n (omega arith) q h.0.1) (omega arith) h.1)

  mean-InUnit :
      (x : F) (l : List F)
      → All (InUnit fl) (x ∷ l)
      → length (x ∷ l) < exact
      → InUnit fl (fl.div (sum_from fl fl.zero (x ∷ l)) (fl.of_ℕ (length (x ∷ l))))
  mean-InUnit x l h e =
      let zero_le : fl.le fl.zero (fl.of_ℕ 0) ≡ true = rw (laws.of_ℕ_zero) (laws.zero_le_zero) in
      let range = sum_from_range fl.zero 0 (x ∷ l) (laws.zero_le_zero) zero_le (omega arith) h in
      let same : 0 + suc (length l) ≡ length l + 1 = omega arith in
      let same' : suc (length l) ≡ length l + 1 = omega arith in
      rw same' (
        laws.div_range (sum_from fl fl.zero (x ∷ l)) (length l) (omega arith) range.0
          (rw same at range.1))

  pub combine-InUnit :
      (mode : ScoreMode) (l : List F) {b : F}
      → All (InUnit fl) l
      → length l < exact
      → combine fl mode l ≡ ok b
      → InUnit fl b
  unfolding combine
  combine-InUnit ScoreMode.min [] h e q = absurd (grind arith)
  combine-InUnit ScoreMode.max [] h e q = absurd (grind arith)
  combine-InUnit ScoreMode.sum [] h e q = absurd (grind arith)
  combine-InUnit ScoreMode.min (x ∷ l) h e q =
      subst (InUnit fl) (ok-injective q) (min_from-InUnit x l h.0 h.1)
  combine-InUnit ScoreMode.max (x ∷ l) h e q =
      subst (InUnit fl) (ok-injective q) (max_from-InUnit x l h.0 h.1)
  combine-InUnit ScoreMode.sum (x ∷ l) h e q =
      subst (InUnit fl) (ok-injective q) (mean-InUnit x l h e)
