-- ===== src/Floats/Cents.antt =====
-- A model of the assumptions on `float`: numbers in hundredths. The witnesses use it.
use task_maker.Prelude.{
  ℕ, ◌+◌, ◌*◌, ◌/◌, ◌≤◌, String, ◌≡◌, refl, true, none, some, Option, arith, ltb, leb, nat_beq,
  if◌then◌else◌, ◌==◌, string_eq,
}
use task_maker.Floats.{Floats, IsFloat}

abbrev parse : String → Option ℕ
parse s =
    if s == "0"
    then some 0
    else if s == "0.5"
    then some 50
    else if s == "1"
    then some 100
    else if s == "10"
    then some 1000
    else if s == "100"
    then some 10000
    else if s == "2"
    then some 200
    else none

abbrev pub cents : Floats ℕ
cents = record {
  zero = 0;
  one = 100;
  add = λ a b. a + b;
  mul = λ a b. a * b / 100;
  div = λ a b. a * 100 / b;
  of_ℕ = λ n. n * 100;
  lt = ltb;
  le = leb;
  eq = nat_beq;
  finite = λ a. true;
  parse = parse;
}

mul-le : (a c : ℕ) → a ≤ 100 → a * c / 100 ≤ c
mul-le a c h = let p : a * c ≤ 100 * c = grind arith in omega arith

div-le : (a n : ℕ) → a ≤ (n + 1) * 100 → a * 100 / ((n + 1) * 100) ≤ 100
div-le a n h = grind arith

refl_le : (a : ℕ) → leb 0 a ≡ true
refl_le a = ground arith

pub cents-IsFloat : IsFloat cents
cents-IsFloat = record {
  add_zero = refl;
  zero_le_zero = refl;
  zero_le_one = refl;
  one_le_one = refl;
  of_ℕ_zero = refl;
  le_trans = λ a b c p q. ground arith;
  le_self = λ a p. ground arith;
  lt_le = λ a b p. ground arith;
  le_of_not_lt = λ a b p q r. ground arith;
  eq_iff_le = λ a b. ((λ p. (ground arith, ground arith)), λ p. ground (arith, p.0, p.1));
  add_nonneg = λ a b p q. ground arith;
  add_le = λ a b n h p q. ground arith;
  div_range = λ a n h p q. (refl_le _, ground (arith, div-le a n));
  mul_range = λ a c p q r s. (refl_le _, ground (arith, mul-le a c));
}
