-- ===== src/Backtest/Broker/Order.antt =====
-- The order of the pending events: by time, and by sequence number within a time.
use qmt_trading.Base.{◌≡◌, true, false, arith, List, IsSorted, sort_by, sort_by-IsSorted}
use qmt_trading.Text.Order.{
  text_eq_iff, text_lt_asymm, text_lt_irrefl, text_le_trans, eq_of_not_text_lt,
}
use qmt_trading.Backtest.Types.{Event}
use qmt_trading.Backtest.Broker.{event_before}

module _ {R : Type 0} where
  event_before_asymm : (a b : Event R) → event_before a b ≡ true → event_before b a ≡ false
  unfolding event_before
  event_before_asymm a b h = ground (
    arith,
    text_lt_asymm a.sort_time b.sort_time,
    text_lt_asymm b.sort_time a.sort_time,
    text_eq_iff a.sort_time b.sort_time,
    text_eq_iff b.sort_time a.sort_time,
    text_lt_irrefl a.sort_time,
  )

  event_before_trans :
      (a b c : Event R)
      → event_before b a ≡ false
      → event_before c b ≡ false
      → event_before c a ≡ false
  unfolding event_before
  event_before_trans a b c p q = ground (
    arith,
    text_le_trans a.sort_time b.sort_time c.sort_time,
    eq_of_not_text_lt b.sort_time a.sort_time,
    eq_of_not_text_lt c.sort_time b.sort_time,
    text_eq_iff b.sort_time a.sort_time,
    text_eq_iff c.sort_time b.sort_time,
    text_eq_iff c.sort_time a.sort_time,
    text_lt_irrefl a.sort_time,
  )

  -- Sorting the events puts none before an event of an earlier time, or of the same time and a lower
  -- sequence number.
  pub sort_events-IsSorted : (es : List (Event R)) → IsSorted event_before (sort_by event_before es)
  sort_events-IsSorted es = sort_by-IsSorted event_before event_before_asymm event_before_trans es
