-- ===== src/Backtest/Exits/Keys.antt =====
-- The readers of the optional keys of a signal.
use qmt_trading.Base.{
  ℕ, Bool, false, ◌&&◌, Option, none, some, [], ◌∷◌, ◌++◌, ◌==◌, if◌then◌else◌, ltb, leb, ◌/◌, ◌*◌,
}
use qmt_trading.Base.Int.{ℤ, pos, pos_part}
use qmt_trading.Text.{Text, codes, is_digit, strip}
use qmt_trading.Dict.{Dict, lookup}
use qmt_trading.Float.{Float, zero_f, fmax, trunc, whole, not_a_number, infinite}
use qmt_trading.Value.{Value, null, int, is_blank, to_float}
use qmt_trading.Backtest.Types.{Result, ok, raise, overflow, ◌>>=◌}

module _ {R : Type 0} where
  -- `signal.get(key, default)`
  abbrev pub get : Text → Value R → Dict (Value R) → Value R
  get key default d = elim (lookup key d) [ none ↦ default | some v ↦ v ]

abbrev at_least : ℕ → Option ℤ → Result ℕ
at_least n none = ok n
at_least n (some z) = ok (if ltb (pos_part z) n then n else pos_part z)

-- A share count below one lot is no request; others are cut to whole lots.
abbrev whole_lots : Option ℤ → Result (Option ℕ)
whole_lots none = ok none
whole_lots (some z) = if leb 100 (pos_part z) then ok (some (pos_part z / 100 * 100)) else ok none

module _ {R : Type 0} ⦃F : Float R⦄ where
  -- `int(float(value))` under `except (TypeError, ValueError)`, which does not catch the
  -- OverflowError of an infinity.
  unfoldable pub int_of_float : Value R → Result (Option ℤ)
  int_of_float v = elim (to_float v) [
    | none ↦ ok none
    | some x ↦ elim (trunc x) [
      | whole z ↦ ok (some z)
      | not_a_number ↦ ok none
      | infinite ↦ raise overflow
    ]
  ]

  unfoldable pub percent_value : Value R → R
  percent_value v =
      if is_blank v then zero_f else elim (to_float v) [ none ↦ zero_f | some x ↦ fmax x zero_f ]

  unfoldable pub exit_after_trading_days : Dict (Value R) → Result ℕ
  unfolding int_of_float lookup
  exit_after_trading_days d = do
    days ← int_of_float (
        get (codes "exit_after_trading_days")
          (get (codes "sell_after_trading_days") (int (pos 1)) d) d)
    at_least 1 days

  unfoldable pub sell_after_trading_days : Dict (Value R) → Result ℕ
  unfolding int_of_float lookup
  sell_after_trading_days d =
      let raw =
        get (codes "sell_after_trading_days")
          (get (codes "sell_after_days") (get (codes "exit_after_trading_days") null d) d) d in
      if is_blank raw then ok 0 else (int_of_float raw >>= at_least 0)

  unfoldable pub requested_quantity : Dict (Value R) → Result (Option ℕ)
  unfolding int_of_float lookup
  requested_quantity d =
      let raw = get (codes "quantity") null d in
      if is_blank raw then ok none else (int_of_float raw >>= whole_lots)

-- `\d{2}:\d{2}:\d{2}` and `\d{2}:\d{2}`.
is_clock : Text → Bool
unfolding is_digit
is_clock (a ∷ b ∷ c ∷ d ∷ e ∷ f ∷ g ∷ h ∷ []) =
    is_digit a
    && is_digit b
    && c == b':'
    && is_digit d
    && is_digit e
    && f == b':'
    && is_digit g
    && is_digit h
is_clock _ = false

is_short_clock : Text → Bool
unfolding is_digit
is_short_clock (a ∷ b ∷ c ∷ d ∷ e ∷ []) =
    is_digit a && is_digit b && c == b':' && is_digit d && is_digit e
is_short_clock _ = false

unfoldable pub normalize_time_text : Text → Text
unfolding is_clock is_short_clock strip
normalize_time_text value =
    let t = strip value in
    if is_clock t then t else if is_short_clock t then t ++ codes ":00" else codes "14:50:00"
