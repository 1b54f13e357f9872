-- ===== src/Float.antt =====
-- Python's `float`, which the program computes prices and money with. Its arithmetic is not code of
-- the repository: the operations are an interface, and the development uses no law of them unless a
-- theorem names it. `Float/Fixed.antt` has a decimal instance, with which the model runs.
pub mod Fixed
use qmt_trading.Base.{ℕ, Bool, not, ◌||◌, Option, if◌then◌else◌}
use qmt_trading.Base.Int.{ℤ, pos}
use qmt_trading.Text.{Text}

-- What `int(x)` does: it truncates, or raises ValueError on NaN, or OverflowError on an infinity.
pub data Truncated : Type 0 where
  whole : ℤ → Truncated
  not_a_number infinite : Truncated

-- `lit m k` is the literal with the decimal value m / 10^k; `round d x` is `round(x, d)`; `parse`
-- is `float(text)` where it does not raise; `show` is `str(x)`; `format d x` is `f"{x:.df}"`.
pub record Float (R : Type 0) : Type 0 where
  pub lit : ℕ → ℕ → R
  pub of_ℤ : ℤ → R
  pub add : R → R → R
  pub sub : R → R → R
  pub mul : R → R → R
  pub div : R → R → R
  pub pow : R → R → R
  pub lt : R → R → Bool
  pub le : R → R → Bool
  pub eq : R → R → Bool
  pub round : ℕ → R → R
  pub trunc : R → Truncated
  pub parse : Text → Option R
  pub show : R → Text
  pub format : ℕ → R → Text

module _ {R : Type 0} ⦃F : Float R⦄ where
  abbrev pub lit : ℕ → ℕ → R
  lit = F.lit

  abbrev pub of_ℤ : ℤ → R
  of_ℤ = F.of_ℤ

  abbrev pub of_ℕ : ℕ → R
  of_ℕ n = F.of_ℤ (pos n)

  abbrev pub zero_f : R
  zero_f = F.lit 0 0

  abbrev pub add : R → R → R
  add = F.add

  abbrev pub sub : R → R → R
  sub = F.sub

  abbrev pub mul : R → R → R
  mul = F.mul

  abbrev pub div : R → R → R
  div = F.div

  abbrev pub pow : R → R → R
  pow = F.pow

  abbrev pub lt : R → R → Bool
  lt = F.lt

  abbrev pub le : R → R → Bool
  le = F.le

  abbrev pub eq : R → R → Bool
  eq = F.eq

  abbrev pub round : ℕ → R → R
  round = F.round

  abbrev pub trunc : R → Truncated
  trunc = F.trunc

  abbrev pub parse : Text → Option R
  parse = F.parse

  abbrev pub show : R → Text
  show = F.show

  abbrev pub format : ℕ → R → Text
  format = F.format

  -- Truthiness of a float: `bool(x)`.
  abbrev pub nonzero : R → Bool
  nonzero x = not (F.eq x (F.lit 0 0))

  -- The built-ins `min(a, b)` and `max(a, b)`, which keep the first unless the second is better.
  abbrev pub fmin : R → R → R
  fmin a b = if F.lt b a then b else a

  abbrev pub fmax : R → R → R
  fmax a b = if F.lt a b then b else a
