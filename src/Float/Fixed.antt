-- ===== src/Float/Fixed.antt =====
-- A decimal instance of the float interface, in steps of 1/10000, with a value that stands for NaN.
-- Witnesses and tests run the model on it.
use qmt_trading.Base.{
  ℕ, ◌+◌, ◌*◌, ◌/◌, ◌^◌, Bool, true, false, not, ◌&&◌, none, if◌then◌else◌, ◌==◌,
}
use qmt_trading.Base.Int.{ℤ, pos, negsuc, ◌+ℤ◌, ◌-ℤ◌, pos_part, neg_part, sub_ℕ, ltb_ℤ}
use qmt_trading.Float.{Float, whole, not_a_number}
use qmt_trading.Text.{codes}

-- `units n` is n / 10000.
pub data Fixed : Type 0 where
  units : ℤ → Fixed
  nan : Fixed

abbrev on_two : (ℤ → ℤ → ℤ) → Fixed → Fixed → Fixed
on_two f (units a) (units b) = units (f a b)
on_two f (units a) nan = nan
on_two f nan b = nan

abbrev test_two : (ℤ → ℤ → Bool) → Fixed → Fixed → Bool
test_two f (units a) (units b) = f a b
test_two f (units a) nan = false
test_two f nan b = false

-- The magnitude of a, scaled by m and divided by d, with the sign of a kept and that of s applied.
abbrev scaled : ℕ → ℕ → Bool → ℤ → ℤ
scaled m d flip a =
    let p = pos_part a * m / d in
    let n = neg_part a * m / d in if flip then sub_ℕ n p else sub_ℕ p n

abbrev is_negative : ℤ → Bool
is_negative (pos n) = false
is_negative (negsuc n) = true

abbrev size : ℤ → ℕ
size a = pos_part a + neg_part a

abbrev mul_fixed : ℤ → ℤ → ℤ
mul_fixed a b = scaled (size b) 10000 (is_negative b) a

abbrev div_fixed : ℤ → ℤ → ℤ
div_fixed a b = scaled 10000 (size b) (is_negative b) a

-- Rounds to d digits, half away from zero.
abbrev round_fixed : ℕ → Fixed → Fixed
round_fixed d nan = nan
round_fixed d (units a) =
    let step = 10000 / 10 ^ d in
    let half = step / 2 in
    if step == 0
    then units a
    else units (sub_ℕ ((pos_part a + half) / step * step) ((neg_part a + half) / step * step))

instance abbrev pub fixed_float : Float Fixed
fixed_float = record {
  lit = λ m k. units (pos (m * 10000 / 10 ^ k));
  of_ℤ = λ z. units (sub_ℕ (pos_part z * 10000) (neg_part z * 10000));
  add = on_two ◌+ℤ◌;
  sub = on_two ◌-ℤ◌;
  mul = on_two mul_fixed;
  div = on_two div_fixed;
  pow = λ a b. a;
  lt = test_two ltb_ℤ;
  le = test_two (λ a b. not (ltb_ℤ b a));
  eq = test_two (λ a b. not (ltb_ℤ a b) && not (ltb_ℤ b a));
  round = round_fixed;
  trunc = λ x. elim x [
    | nan ↦ not_a_number
    | units a ↦ whole (sub_ℕ (pos_part a / 10000) (neg_part a / 10000))
  ];
  parse = λ t. none;
  show = λ x. codes "number";
  format = λ d x. codes "number";
}
