-- ===== src/Backtest/Exits/Named.antt =====
-- The stock of the exits that the broker arranges for itself.
use qmt_trading.Base.{
  ℕ, ◌-◌, ◌≡◌, refl, ◌∙◌, Bool, true, false, &&-eq-true, Option, none, some, List, [], ◌∷◌, All,
  All-append, All-keep, keep-All, All-last, All-get_elem?, All-sort_by, Option-cases, Bool-cases,
  List-cases, keep, last?, ltb, length, if◌then◌else◌, ◌==◌, inl, inr, arith,
}
use qmt_trading.Text.{Text, codes, text_lt, strip, or_text}
use qmt_trading.Text.Order.{text_eq→eq}
use qmt_trading.Dict.{lookup}
use qmt_trading.Float.{Float}
use qmt_trading.Value.{null, text_or}
use qmt_trading.Backtest.Types.{MarketBar, Settings, Signal, Event, ExitLog, Result}
use qmt_trading.Backtest.Exits.Rows.{
  MinuteRow, list_minute_bar_rows_between, minute_market_bar, bar_after_trading_days,
  trading_dates_after,
}
use qmt_trading.Backtest.Exits.Scan.{ExitReason, scan, trigger, select_row}
use qmt_trading.Backtest.Exits.{
  exit_rows, stop_price, take_price, after_controlled, controlled_event, controlled_on_days,
  controlled_exit_event, holding_exit, holding_on_bar, holding_event, auto_exit_event,
}
use qmt_trading.Backtest.Exits.Keys.{
  get, percent_value, normalize_time_text, exit_after_trading_days, sell_after_trading_days,
}
use qmt_trading.Backtest.Ensuring.{Ensures, Ensures->>=, Ensures-unit, Result-cases}

module _ {R : Type 0} where
  abbrev RowOf : Text → MinuteRow R → Type 0
  RowOf symbol r = r.symbol ≡ symbol

  abbrev pub BarOf : Text → MarketBar R → Type 0
  BarOf symbol b = b.symbol ≡ symbol

  -- An event on a bar of its own stock.
  abbrev pub IsNamed : Event R → Type 0
  IsNamed e = elim e.bar [ none ↦ Unit {0} | some b ↦ b.symbol ≡ e.signal.symbol ]

  abbrev pub IsNamedExit : Text → Option (Event R) × Option ExitLog → Type 0
  IsNamedExit symbol (none, line) = Unit
  IsNamedExit symbol (some e, line) = IsNamed e

  rows_between-RowOf :
      (table : List (MinuteRow R)) (symbol start end : Text)
      → All (RowOf symbol) (list_minute_bar_rows_between table symbol start end)
  unfolding list_minute_bar_rows_between
  rows_between-RowOf table symbol start end = All-sort_by _ (RowOf symbol) _ (
      All-keep (RowOf symbol) _ table (λ r h.
        text_eq→eq r.symbol symbol (&&-eq-true _ _ (&&-eq-true _ _ (&&-eq-true _ _ h).0).0).1))

  renamed :
      (a b : Text) (rows : List (MinuteRow R)) → a ≡ b → All (RowOf a) rows → All (RowOf b) rows
  renamed a b [] e h = tt
  renamed a b (r ∷ rows) e h = (h.0 ∙ e, renamed a b rows e h.1)

  after_controlled-IsNamedExit :
      (symbol : Text) (event : Option (Event R)) (line : Option ExitLog) (minute : Bool)
      (other : Result (Option (Event R) × Option ExitLog))
      → IsNamedExit symbol (event, line)
      → Ensures (IsNamedExit symbol) other
      → Ensures (IsNamedExit symbol) (after_controlled event line minute other)
  after_controlled-IsNamedExit symbol (some e) line minute other h k = h
  after_controlled-IsNamedExit symbol none (some l) true other h k = tt
  after_controlled-IsNamedExit symbol none (some l) false other h k = k
  after_controlled-IsNamedExit symbol none none minute other h k = k

  bar_after-BarOf :
      (symbol : Text) (bars : List (MarketBar R)) (date : Text) (days : ℕ) (b : MarketBar R)
      → All (BarOf symbol) bars
      → bar_after_trading_days bars date days ≡ some b
      → BarOf symbol b
  unfolding bar_after_trading_days
  bar_after-BarOf symbol bars date days b named h =
      elim (Bool-cases
        (ltb (length (keep (λ (c : MarketBar R). text_lt date c.trade_date) bars)) days)) [
          | inl e ↦ absurd (ground arith)
          | inr e ↦
              All-get_elem? (BarOf symbol)
                (keep (λ (c : MarketBar R). text_lt date c.trade_date) bars) (days - 1) b
                (rw e at h) (keep-All (BarOf symbol) _ bars named)
        ]

module _ {R : Type 0} ⦃F : Float R⦄ where
  exit_rows-RowOf :
      (table : List (MinuteRow R)) (symbol clock final : Text) (dates : List Text)
      → All (RowOf symbol) (exit_rows table symbol clock final dates)
  unfolding exit_rows
  exit_rows-RowOf table symbol clock final [] = tt
  exit_rows-RowOf table symbol clock final (day ∷ days) =
      All-append (RowOf symbol) _ (exit_rows table symbol clock final days)
        (rows_between-RowOf table symbol _ _) (exit_rows-RowOf table symbol clock final days)

  scan-RowOf :
      (symbol : Text) (stop take : Option R) (rows : List (MinuteRow R))
      (choice : MinuteRow R × R × ExitReason)
      → scan stop take rows ≡ some choice
      → All (RowOf symbol) rows
      → RowOf symbol choice.0
  unfolding scan
  scan-RowOf symbol stop take [] choice e h = absurd (ground arith)
  scan-RowOf symbol stop take (row ∷ rows) choice e h =
      elim (Option-cases (trigger stop take row)) [
        | inl k ↦ scan-RowOf symbol stop take rows choice (ground (arith, k, e)) h.1
        | inr (t, k) ↦ let same : choice.0 ≡ row = ground (arith, k, e) in rw same h.0
      ]

  select_row-RowOf :
      (symbol : Text) (stop take : Option R) (row : MinuteRow R) (rows : List (MinuteRow R))
      → All (RowOf symbol) (row ∷ rows)
      → RowOf symbol (select_row stop take row rows).0
  unfolding select_row
  select_row-RowOf symbol stop take row rows h = elim (Option-cases (scan stop take (row ∷ rows))) [
    | inr (c, e) ↦
        let found = scan-RowOf symbol stop take (row ∷ rows) c e h in ground (arith, found, e)
    | inl e ↦ elim (Option-cases (last? (row ∷ rows))) [
      | inl k ↦ ground (arith, h.0, e, k)
      | inr (m, k) ↦
          let found = All-last (RowOf symbol) (row ∷ rows) m k h in ground (arith, found, e, k)
    ]
  ]

  controlled_event-IsNamed :
      (buy_bar : MarketBar R) (buy_price : R) (quantity : ℕ) (signal : Signal R) (sequence : ℕ)
      (stop_pct take_pct : R) (clock : Text) (days : ℕ) (choice : MinuteRow R × R × ExitReason)
      → RowOf signal.symbol choice.0
      → IsNamed
          (controlled_event buy_bar buy_price quantity signal sequence stop_pct take_pct clock days
            choice).0
  unfolding controlled_event minute_market_bar
  controlled_event-IsNamed buy_bar buy_price quantity signal sequence stop_pct take_pct clock days
        choice h =
      h

  controlled_on_days-IsNamed :
      (table : List (MinuteRow R)) (buy_bar : MarketBar R) (buy_price : R) (quantity : ℕ)
      (signal : Signal R) (sequence : ℕ) (stop_pct take_pct : R) (clock : Text) (days : ℕ)
      (dates : List Text)
      → BarOf signal.symbol buy_bar
      → IsNamedExit signal.symbol (
          controlled_on_days table buy_bar buy_price quantity signal sequence stop_pct take_pct
            clock days dates)
  unfolding controlled_on_days
  controlled_on_days-IsNamed table buy_bar buy_price quantity signal sequence stop_pct take_pct
        clock days dates named =
      elim (Option-cases (last? dates)) [
        | inl e ↦ ground (arith, e)
        | inr (final, e) ↦ elim (List-cases (exit_rows table buy_bar.symbol clock final dates)) [
          | inl k ↦ ground (arith, e, k)
          | inr (row, rows, k) ↦
              let all : All (RowOf buy_bar.symbol) (row ∷ rows) =
                rw k at (exit_rows-RowOf table buy_bar.symbol clock final dates) in
              let chosen =
                select_row-RowOf signal.symbol (stop_price buy_price stop_pct)
                  (take_price buy_price take_pct) row rows
                  (renamed buy_bar.symbol signal.symbol (row ∷ rows) named all) in
              ground (
                arith,
                e,
                k,
                controlled_event-IsNamed buy_bar buy_price quantity signal sequence stop_pct
                    take_pct clock days
                    (select_row (stop_price buy_price stop_pct) (take_price buy_price take_pct) row
                      rows)
                    chosen,
              )
        ]
      ]

  holding_on_bar-IsNamed :
      (buy_bar : MarketBar R) (quantity : ℕ) (signal : Signal R) (sequence : ℕ)
      (line : Option ExitLog) (days : ℕ) (found : Option (Option (MarketBar R)))
      → ((b : MarketBar R) → found ≡ some (some b) → BarOf signal.symbol b)
      → Ensures
          (IsNamedExit signal.symbol)
          (holding_on_bar buy_bar quantity signal sequence line days found)
  unfolding holding_on_bar holding_event
  holding_on_bar-IsNamed buy_bar quantity signal sequence line days none h = tt
  holding_on_bar-IsNamed buy_bar quantity signal sequence line days (some none) h = tt
  holding_on_bar-IsNamed buy_bar quantity signal sequence line days (some (some b)) h = h b refl

  holding_bar-BarOf :
      (symbol : Text) (bars : List (MarketBar R)) (date : Text) (days : ℕ) (b : MarketBar R)
      → All (BarOf symbol) bars
      → (if days == 0 then none else some (bar_after_trading_days bars date days)) ≡ some (some b)
      → BarOf symbol b
  holding_bar-BarOf symbol bars date days b named h = elim (Bool-cases (days == 0)) [
    | inl e ↦ absurd (ground (arith, rw e at h))
    | inr e ↦ bar_after-BarOf symbol bars date days b named (ground (arith, rw e at h))
  ]

  holding_exit-IsNamed :
      (bars : List (MarketBar R)) (buy_bar : MarketBar R) (quantity : ℕ) (signal : Signal R)
      (sequence : ℕ) (line : Option ExitLog)
      → All (BarOf signal.symbol) bars
      → Ensures
          (IsNamedExit signal.symbol)
          (holding_exit bars buy_bar quantity signal sequence line)
  unfolding holding_exit
  holding_exit-IsNamed bars buy_bar quantity signal sequence line named =
      Ensures->>= (λ d. Unit {0}) (IsNamedExit signal.symbol) (sell_after_trading_days signal.extra)
        _ (Ensures-unit (sell_after_trading_days signal.extra))
        (λ days _.
          holding_on_bar-IsNamed buy_bar quantity signal sequence line days _
            (λ b e. holding_bar-BarOf signal.symbol bars buy_bar.trade_date days b named e))

  controlled_exit_event-IsNamed :
      (table : List (MinuteRow R)) (settings : Settings R) (bars : List (MarketBar R))
      (buy_bar : MarketBar R) (buy_price : R) (quantity : ℕ) (signal : Signal R) (sequence : ℕ)
      → BarOf signal.symbol buy_bar
      → Ensures
          (IsNamedExit signal.symbol)
          (controlled_exit_event table settings bars buy_bar buy_price quantity signal sequence)
  unfolding controlled_exit_event
  controlled_exit_event-IsNamed table settings bars buy_bar buy_price quantity signal sequence
        named =
      elim (Result-cases (exit_after_trading_days signal.extra)) [
        | inl (days, e) ↦ ground (
          arith,
          controlled_on_days-IsNamed table buy_bar buy_price quantity signal sequence
              (percent_value (get (codes "stop_loss_pct") null signal.extra))
              (percent_value (get (codes "take_profit_pct") null signal.extra))
              (normalize_time_text (
                or_text (strip (text_or (lookup (codes "fallback_exit_time") signal.extra) []))
                  (codes "14:50:00")))
              days (trading_dates_after bars buy_bar.trade_date days) named,
        )
        | inr (x, e) ↦ ground arith
      ]

  -- The exit that is arranged for a purchase is on a bar of the stock that it sells.
  pub auto_exit_event-IsNamed :
      (table : List (MinuteRow R)) (settings : Settings R) (bars : List (MarketBar R))
      (buy_bar : MarketBar R) (buy_price : R) (quantity : ℕ) (signal : Signal R) (sequence : ℕ)
      → All (BarOf signal.symbol) bars
      → BarOf signal.symbol buy_bar
      → Ensures
          (IsNamedExit signal.symbol)
          (auto_exit_event table settings bars buy_bar buy_price quantity signal sequence)
  unfolding auto_exit_event
  auto_exit_event-IsNamed table settings bars buy_bar buy_price quantity signal sequence all named =
      Ensures->>= (IsNamedExit signal.symbol) (IsNamedExit signal.symbol)
        (controlled_exit_event table settings bars buy_bar buy_price quantity signal sequence) _
        (controlled_exit_event-IsNamed table settings bars buy_bar buy_price quantity signal
          sequence named)
        λ (event, line) h.
          after_controlled-IsNamedExit signal.symbol event line _ _ h
            (holding_exit-IsNamed bars buy_bar quantity signal sequence line all)
