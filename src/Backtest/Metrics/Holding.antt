-- ===== src/Backtest/Metrics/Holding.antt =====
-- MetricsService._average_holding_days and _holding_trading_days
-- (backend/services/backtest_center/backtest_engine.py): the days that sold shares were held, first in
-- first out. `days_between a b` is (b - a).days, none where strptime raises ValueError.
use qmt_trading.Base.{
  ℕ, ◌+◌, ◌-◌, ◌*◌, Option, none, some, List, [], ◌∷◌, ◌++◌, if◌then◌else◌, ltb, ◌==◌, min,
}
use qmt_trading.Base.Int.{ℤ, pos_part}
use qmt_trading.Text.{Text, text_eq, prefix}
use qmt_trading.Dict.{Dict, get_or, insert}
use qmt_trading.Float.{Float, zero_f, of_ℕ, div, round}
use qmt_trading.Backtest.Types.{Trade, bought, sold, Result, ok, raise, value_error, ◌>>=◌}

pub record DayLot : Type 0 where
  pub trade_date : Text
  pub quantity : ℕ

pub record Held : Type 0 where
  pub weighted_days : ℕ
  pub weighted_quantity : ℕ

-- The index of a date among the dates of the equity curve; the last one where it stands twice.
unfoldable pub date_rank : ℕ → Text → List Text → Option ℕ
unfolding text_eq
date_rank index date [] = none
date_rank index date (d ∷ dates) =
    let later = date_rank (index + 1) date dates in
    elim later [ some i ↦ some i | none ↦ if text_eq d date then some index else none ]

abbrev by_dates : Option ℤ → Result ℕ
by_dates none = raise value_error
by_dates (some n) = ok (pos_part n)

abbrev by_rank : Option ℕ → Option ℕ → Option ℤ → Result ℕ
by_rank (some buy) (some sell) days = ok (sell - buy)
by_rank (some buy) none days = by_dates days
by_rank none sell days = by_dates days

unfoldable pub holding_trading_days : (Text → Text → Option ℤ) → List Text → Text → Text → Result ℕ
unfolding date_rank
holding_trading_days days_between dates buy_date sell_date =
    by_rank (date_rank 0 buy_date dates) (date_rank 0 sell_date dates)
      (days_between buy_date sell_date)

abbrev held_after : Held → ℕ → ℕ → Held
held_after h days used = record {
  weighted_days = h.weighted_days + days * used;
  weighted_quantity = h.weighted_quantity + used;
}

abbrev left_of : DayLot → ℕ → List DayLot → List DayLot
left_of lot used lots =
    if ltb 0 (lot.quantity - used)
    then record lot { quantity = lot.quantity - used } ∷ lots
    else lots

-- The loop over the lots of a stock for one sale: the totals, and the lots that stay.
unfoldable pub sell_lots :
    (Text → Text → Option ℤ)
    → List Text
    → Text
    → List DayLot
    → ℕ
    → Held
    → Result (Held × List DayLot)
unfolding holding_trading_days
sell_lots days_between dates date [] remaining h = ok (h, [])
sell_lots days_between dates date (lot ∷ lots) remaining h =
    let used = min lot.quantity remaining in
    (if ltb 0 used then holding_trading_days days_between dates lot.trade_date date else ok 0)
    >>= λ days.
        sell_lots days_between dates date lots (remaining - used) (held_after h days used)
        >>= λ rest. ok (rest.0, left_of lot used rest.1)

module _ {R : Type 0} where
  unfoldable pub holding_from :
      (Text → Text → Option ℤ)
      → List Text
      → List (Trade R)
      → Dict (List DayLot)
      → Held
      → Result Held
  unfolding sell_lots get_or insert
  holding_from days_between dates [] lots_by_symbol h = ok h
  holding_from days_between dates (t ∷ trades) lots_by_symbol h =
      let date = prefix 10 t.trade_time in
      let lots = get_or t.symbol [] lots_by_symbol in
      elim t.side [
        | bought ↦
            holding_from days_between dates trades
              (insert t.symbol (lots ++ (record { trade_date = date; quantity = t.quantity } ∷ []))
                lots_by_symbol)
              h
        | sold ↦ sell_lots days_between dates date lots t.quantity h >>= λ rest.
            holding_from days_between dates trades (insert t.symbol rest.1 lots_by_symbol) rest.0
      ]

module _ {R : Type 0} ⦃F : Float R⦄ where
  abbrev average : Held → R
  average h =
      if h.weighted_quantity == 0
      then zero_f
      else round 4 (div (of_ℕ h.weighted_days) (of_ℕ h.weighted_quantity))

  unfoldable pub average_holding_days :
      (Text → Text → Option ℤ) → List (Trade R) → List Text → Result R
  unfolding holding_from
  average_holding_days days_between trades dates =
      holding_from days_between dates trades []
        (record { weighted_days = 0; weighted_quantity = 0 })
      >>= λ h. ok (average h)
