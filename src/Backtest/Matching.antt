-- ===== src/Backtest/Matching.antt =====
-- MatchingEngine: which bar fills a signal, at what price, and when a limit blocks the fill.
pub mod Lookahead
use qmt_trading.Base.{
  Bool, true, false, not, ◌&&◌, ◌||◌, Option, none, some, List, [], ◌∷◌, if◌then◌else◌, find_first,
}
use qmt_trading.Text.{Text, codes, text_lt, text_eq, prefix, or_text, contains, is_empty}
use qmt_trading.Float.{Float, lit, zero_f, add, sub, mul, le, eq, round, fmax}
use qmt_trading.Backtest.Types.{MarketBar, Action, buy, sell, watch}

abbrev pub is_buy : Action → Bool
is_buy buy = true
is_buy _ = false

abbrev fills_at_open : Text → Bool
fills_at_open mode =
    contains (codes "开盘") mode || contains (codes "下一分钟") mode || contains (codes "正式分钟回放") mode

module _ {R : Type 0} where
  -- `signal_time` is "" where the source has None or "".
  unfoldable pub next_bar : List (MarketBar R) → Text → Option (MarketBar R)
  next_bar [] signal_time = none
  next_bar (b ∷ bars) signal_time =
      let signal_date = prefix 10 (or_text signal_time b.trade_date) in
      find_first (λ (c : MarketBar R). text_lt signal_date c.trade_date) (b ∷ bars)

  -- The loop of `is_limit_blocked`: the last bar before the date, among those before the first of
  -- the date.
  unfoldable pub previous_bar :
      Text → Option (MarketBar R) → List (MarketBar R) → Option (MarketBar R)
  previous_bar date previous [] = previous
  previous_bar date previous (c ∷ bars) =
      let later = previous_bar date (some c) bars in
      let same = previous_bar date previous bars in
      if text_lt c.trade_date date
      then later
      else if text_eq c.trade_date date
      then previous
      else same

module _ {R : Type 0} ⦃F : Float R⦄ where
  -- The price with slippage against the trader; a sale is at 0.01 at least.
  unfoldable pub slipped : R → Action → R → R
  slipped base side slippage =
      round 4 (if is_buy side then add base slippage else fmax (sub base slippage) (lit 1 2))

  unfoldable pub executable_price : MarketBar R → Action → Text → R → R
  unfolding slipped contains
  executable_price bar side mode slippage =
      slipped (if fills_at_open mode then bar.open_price else bar.close) side slippage

  abbrev one_price : MarketBar R → Bool
  one_price bar = eq bar.high bar.low && eq bar.low bar.close

  unfoldable pub is_limit_blocked : List (MarketBar R) → MarketBar R → Action → Bool
  unfolding previous_bar
  is_limit_blocked bars bar side = elim (previous_bar (prefix 10 bar.trade_date) none bars) [
    | none ↦ false
    | some previous ↦
        if le previous.close zero_f
        then false
        else if is_buy side
        then one_price bar && le (mul previous.close (lit 1095 3)) bar.close
        else one_price bar && le bar.close (mul previous.close (lit 905 3))
  ]
