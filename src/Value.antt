-- ===== src/Value.antt =====
-- The dynamic values that a strategy puts into a signal: what `signal.get(key)` can give.
use qmt_trading.Base.{
  ℕ, zero, suc, ◌+◌, ◌/◌, ◌%◌, Bool, true, false, not, Option, none, some, [], ◌∷◌, ◌++◌,
  if◌then◌else◌, ◌==◌,
}
use qmt_trading.Base.Int.{ℤ, pos, negsuc, is_zero_ℤ}
use qmt_trading.Text.{Text, codes, is_empty}
use qmt_trading.Float.{Float, of_ℤ, parse, show, nonzero, lit}

-- `other` is any other object, by its `str` and its truth; `float` raises TypeError on it.
pub data Value (R : Type 0) : Type 0 where
  null : Value R
  bool : Bool → Value R
  int : ℤ → Value R
  num : R → Value R
  text : Text → Value R
  other : Text → Bool → Value R

digits_from : ℕ → ℕ → Text → Text
digits_from zero n acc = acc
digits_from (suc fuel) n acc =
    let rest = digits_from fuel (n / 10) ((b'0' + n % 10) ∷ acc) in
    if n / 10 == 0 then (b'0' + n % 10) ∷ acc else rest

-- `str(n)`; a number has no more digits than its value plus one.
unfoldable pub show_ℕ : ℕ → Text
unfolding digits_from
show_ℕ n = digits_from (suc n) n []

unfoldable pub show_ℤ : ℤ → Text
unfolding show_ℕ
show_ℤ (pos n) = show_ℕ n
show_ℤ (negsuc n) = codes "-" ++ show_ℕ (suc n)

module _ {R : Type 0} where
  -- `value in ("", None)`
  abbrev pub is_blank : Value R → Bool
  is_blank null = true
  is_blank (text t) = is_empty t
  is_blank _ = false

module _ {R : Type 0} ⦃F : Float R⦄ where
  -- `float(value)`; none where it raises TypeError or ValueError.
  abbrev pub to_float : Value R → Option R
  to_float null = none
  to_float (bool b) = some (if b then lit 1 0 else lit 0 0)
  to_float (int z) = some (of_ℤ z)
  to_float (num x) = some x
  to_float (text t) = parse t
  to_float (other s b) = none

  -- `str(value)`
  unfoldable pub to_text : Value R → Text
  unfolding show_ℤ
  to_text null = codes "None"
  to_text (bool b) = if b then codes "True" else codes "False"
  to_text (int z) = show_ℤ z
  to_text (num x) = show x
  to_text (text t) = t
  to_text (other s b) = s

  -- `bool(value)`
  abbrev pub truthy : Value R → Bool
  truthy null = false
  truthy (bool b) = b
  truthy (int z) = not (is_zero_ℤ z)
  truthy (num x) = nonzero x
  truthy (text t) = not (is_empty t)
  truthy (other s b) = b

  -- `str(value or default)`, where the default is a text.
  unfoldable pub text_or : Option (Value R) → Text → Text
  unfolding to_text
  text_or none t = t
  text_or (some v) t = if truthy v then to_text v else t
