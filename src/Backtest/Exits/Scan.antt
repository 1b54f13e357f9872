-- ===== src/Backtest/Exits/Scan.antt =====
-- The scan of the minute rows for a stop-loss or a take-profit in `_controlled_exit_event`.
use qmt_trading.Base.{
  ℕ, Bool, false, ◌&&◌, Option, none, some, List, [], ◌∷◌, ◌++◌, if◌then◌else◌, last?,
}
use qmt_trading.Text.{Text, codes}
use qmt_trading.Float.{Float, le, nonzero, format}
use qmt_trading.Value.{show_ℕ}
use qmt_trading.Backtest.Exits.Rows.{MinuteRow, or_else}

abbrev map_option {ℓ κ} : {A : Type ℓ} {B : Type κ} → (A → B) → Option A → Option B
map_option f none = none
map_option f (some a) = some (f a)

abbrev watched_rules : {R : Type 0} → Option R → Option R → Text
watched_rules none none = codes "退出条件"
watched_rules (some s) none = codes "止损"
watched_rules none (some t) = codes "止盈"
watched_rules (some s) (some t) = codes "止损/止盈"

-- Why the scan of the minute rows chose a row.
pub data ExitReason : Type 0 where
  stop_gap take_gap both_hit stop_hit take_hit timed_out : ExitReason

module _ {R : Type 0} ⦃F : Float R⦄ where
  -- `price or open_price`, where a price may be None.
  abbrev price_or : Option R → R → R
  price_or none open_price = open_price
  price_or (some p) open_price = if nonzero p then p else open_price

  abbrev below : R → Option R → Bool
  below x none = false
  below x (some limit) = le x limit

  abbrev above : R → Option R → Bool
  above x none = false
  above x (some limit) = le limit x

  -- What one minute row triggers, in the order of the source's tests.
  unfoldable pub trigger : Option R → Option R → MinuteRow R → Option (R × ExitReason)
  trigger stop take_profit row =
      let stop_hits = below row.low stop in
      let take_hits = above row.high take_profit in
      if below row.open_price stop
      then some (row.open_price, stop_gap)
      else if above row.open_price take_profit
      then some (row.open_price, take_gap)
      else if stop_hits && take_hits
      then some (price_or stop row.open_price, both_hit)
      else if stop_hits
      then some (price_or stop row.open_price, stop_hit)
      else if take_hits
      then some (price_or take_profit row.open_price, take_hit)
      else none

  -- The loop over the rows: the first row that triggers.
  unfoldable pub scan :
      Option R → Option R → List (MinuteRow R) → Option (MinuteRow R × R × ExitReason)
  unfolding trigger
  scan stop take_profit [] = none
  scan stop take_profit (row ∷ rows) = elim (trigger stop take_profit row) [
    | some (price, why) ↦ some (row, price, why)
    | none ↦ scan stop take_profit rows
  ]

  -- `rows[-1]` at its open price, where nothing triggers. `row` stands for the last row seen.
  unfoldable pub select_row :
      Option R → Option R → MinuteRow R → List (MinuteRow R) → MinuteRow R × R × ExitReason
  unfolding scan
  select_row stop take_profit row rows = elim (scan stop take_profit (row ∷ rows)) [
    | some choice ↦ choice
    | none ↦ let last = or_else (last? (row ∷ rows)) row in (last, last.open_price, timed_out)
  ]

  abbrev pub why_text : ExitReason → R → Option R → Option R → R → R → Text → ℕ → Text
  why_text why buy_price stop take_profit stop_pct take_pct clock days =
      let bought_at = codes "买入价 " ++ format 4 buy_price in
      let stop_at = codes "，止损价 " ++ or_else (map_option (format 4) stop) [] ++ codes "。" in
      let take_at = codes "，止盈价 " ++ or_else (map_option (format 4) take_profit) [] ++ codes "。" in
      elim why [
        | stop_gap ↦ codes "监控交易日开盘低于止损价，按开盘价止损卖出；" ++ bought_at ++ stop_at
        | take_gap ↦ codes "监控交易日开盘高于止盈价，按开盘价止盈卖出；" ++ bought_at ++ take_at
        | both_hit ↦ codes "同一分钟同时触发止损和止盈，按保守规则优先止损；" ++ bought_at ++ codes "。"
        | stop_hit ↦ codes "触发止损 " ++ format 2 stop_pct ++ codes "%，按止损价卖出；" ++ bought_at ++ stop_at
        | take_hit ↦ codes "触发止盈 " ++ format 2 take_pct ++ codes "%，按止盈价卖出；" ++ bought_at ++ take_at
        | timed_out ↦
            codes "买入后第 "
            ++ show_ℕ days
            ++ codes " 个交易日 "
            ++ clock
            ++ codes " 前仍未触发"
            ++ watched_rules stop take_profit
            ++ codes "，按最后一分钟开盘价卖出；"
            ++ bought_at
            ++ codes "。"
      ]
