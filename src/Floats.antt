-- ===== src/Floats.antt =====
-- Python's `float`, a parameter of the model: the type, the operations that the program uses, and
-- the IEEE 754 facts that theorems about scores rest on.
pub mod Cents
use task_maker.Prelude.{
  ◌↔◌, ℕ, ◌+◌, ◌<◌, String, ◌≡◌, Bool, true, false, Option, List, [], ◌∷◌, ◌&&◌, if◌then◌else◌,
}

pub record Floats (F : Type 0) : Type 0 where
  pub zero : F
  pub one : F
  pub add : F → F → F
  pub mul : F → F → F
  pub div : F → F → F
  pub of_ℕ : ℕ → F
  pub lt : F → F → Bool
  pub le : F → F → Bool
  pub eq : F → F → Bool
  -- neither an infinity nor a NaN
  pub finite : F → Bool
  -- `float(s)`, where it raises no ValueError
  pub parse : String → Option F

-- 2 ^ 53: up to here every integer is a double.
abbrev pub exact : ℕ
exact = 9007199254740992

pub record IsFloat {F : Type 0} (fl : Floats F) : Type 0 where
  pub add_zero : fl.add fl.zero fl.zero ≡ fl.zero
  pub zero_le_zero : fl.le fl.zero fl.zero ≡ true
  pub zero_le_one : fl.le fl.zero fl.one ≡ true
  pub one_le_one : fl.le fl.one fl.one ≡ true
  pub of_ℕ_zero : fl.of_ℕ 0 ≡ fl.zero
  pub le_trans : (a b c : F) → fl.le a b ≡ true → fl.le b c ≡ true → fl.le a c ≡ true
  pub le_self : (a : F) → fl.le fl.zero a ≡ true → fl.le a a ≡ true
  pub lt_le : (a b : F) → fl.lt a b ≡ true → fl.le a b ≡ true
  pub le_of_not_lt :
      (a b : F)
      → fl.le fl.zero a ≡ true
      → fl.le fl.zero b ≡ true
      → fl.lt a b ≡ false
      → fl.le b a ≡ true
  pub eq_iff_le : (a b : F) → (fl.eq a b ≡ true) ↔ ((fl.le a b ≡ true) × (fl.le b a ≡ true))
  -- rounding is monotone, and an integer up to `exact` is not rounded
  pub add_nonneg :
      (a b : F)
      → fl.le fl.zero a ≡ true
      → fl.le fl.zero b ≡ true
      → fl.le fl.zero (fl.add a b) ≡ true
  pub add_le :
      (a b : F) (n : ℕ)
      → n < exact
      → fl.le a (fl.of_ℕ n) ≡ true
      → fl.le b fl.one ≡ true
      → fl.le (fl.add a b) (fl.of_ℕ (n + 1)) ≡ true
  pub div_range :
      (a : F) (n : ℕ)
      → n < exact
      → fl.le fl.zero a ≡ true
      → fl.le a (fl.of_ℕ (n + 1)) ≡ true
      → (fl.le fl.zero (fl.div a (fl.of_ℕ (n + 1))) ≡ true)
        × (fl.le (fl.div a (fl.of_ℕ (n + 1))) fl.one ≡ true)
  pub mul_range :
      (a c : F)
      → fl.le fl.zero a ≡ true
      → fl.le a fl.one ≡ true
      → fl.le fl.zero c ≡ true
      → fl.finite c ≡ true
      → (fl.le fl.zero (fl.mul a c) ≡ true) × (fl.le (fl.mul a c) c ≡ true)

module _ {F : Type 0} (fl : Floats F) where
  -- sum(l)
  abbrev pub sum_from : F → List F → F
  sum_from acc [] = acc
  sum_from acc (x ∷ l) = sum_from (fl.add acc x) l

  -- min(l) of a list that is not empty: the first of the smallest
  abbrev pub min_from : F → List F → F
  min_from m [] = m
  min_from m (x ∷ l) = min_from (if fl.lt x m then x else m) l

  abbrev pub max_from : F → List F → F
  max_from m [] = m
  max_from m (x ∷ l) = max_from (if fl.lt m x then x else m) l

  -- 0.0 <= a <= 1.0
  abbrev pub in_unit : F → Bool
  in_unit a = fl.le fl.zero a && fl.le a fl.one

abbrev pub InUnit : {F : Type 0} (fl : Floats F) → F → Type 0
InUnit fl a = (fl.le fl.zero a ≡ true) × (fl.le a fl.one ≡ true)
