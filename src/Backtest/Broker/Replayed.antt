-- ===== src/Backtest/Broker/Replayed.antt =====
-- The positions of the broker's portfolio, and the positions that the trade rows give when they are
-- replayed (MetricsService._open_position_count).
use qmt_trading.Base.{
  ℕ, ◌+◌, ◌≡◌, refl, sym, ◌∙◌, ap, Bool, &&-eq-true, Option, none, some, List, [], ◌∷◌, ◌++◌, All,
  All-append, All-keep, All-find_first, All-get_elem?, All-sort_by, Option-cases, Bool-cases, inl,
  inr, arith,
}
use qmt_trading.Text.{Text, text_eq, text_lt, prefix, or_text}
use qmt_trading.Text.Order.{text_eq→eq}
use qmt_trading.Dict.{Dict, get_or}
use qmt_trading.Float.{Float}
use qmt_trading.Backtest.Types.{
  MarketBar, Signal, Event, ExitLog, Trade, bought, sold, Status, Skip, ok, minute_frequency,
}
use qmt_trading.Backtest.Ensuring.{Ensures, Ensures->>=}
use qmt_trading.Backtest.Matching.{next_bar}
use qmt_trading.Backtest.Portfolio.{position, Portfolio}
use qmt_trading.Backtest.Portfolio
use qmt_trading.Backtest.Exits.{auto_exit_event}
use qmt_trading.Backtest.Exits.Rows.{MinuteRow, next_minute_bar_row, minute_market_bar}
use qmt_trading.Backtest.Exits.Named.{BarOf, IsNamed, IsNamedExit, auto_exit_event-IsNamed}
use qmt_trading.Backtest.Metrics.{moved, replayed_positions, open_position_count, count_open}
use qmt_trading.Backtest.Broker.{
  State, World, event_before, refuse, record_trade, schedule, fill_buy, fill_sell, on_event,
  event_bar, execution_bar, pending_events, start, enough, execute_with_audit,
}
use qmt_trading.Backtest.Broker.Rows.{trade_row}
use qmt_trading.Backtest.Broker.Loop.{run_inv}
use qmt_trading.Backtest.Broker.Rule.{on_event_rule}

module _ {R : Type 0} where
  -- The bars under a code are bars of that stock.
  abbrev pub HasOwnBars : World R → Type 0
  HasOwnBars w = (symbol : Text) → All (BarOf symbol) (get_or symbol [] w.bars_by_symbol)

  pub record Replays (s : State R) : Type 0 where
    pub same : s.portfolio.positions ≡ replayed_positions [] s.trades
    pub named : All IsNamed s.pending

  replayed-append :
      (positions : Dict ℕ) (trades : List (Trade R)) (t : Trade R)
      → replayed_positions positions (trades ++ (t ∷ []))
        ≡ moved t.side t.symbol t.quantity (replayed_positions positions trades)
  unfolding replayed_positions
  replayed-append positions [] t = refl
  replayed-append positions (u ∷ trades) t =
      replayed-append (moved u.side u.symbol u.quantity positions) trades t

  next_bar-BarOf :
      (symbol : Text) (bars : List (MarketBar R)) (time : Text) (b : MarketBar R)
      → All (BarOf symbol) bars
      → next_bar bars time ≡ some b
      → BarOf symbol b
  unfolding next_bar
  next_bar-BarOf symbol [] time b h e = absurd (ground arith)
  next_bar-BarOf symbol (c ∷ bars) time b h e =
      All-find_first (BarOf symbol)
        (λ d. text_lt (prefix 10 (or_text time c.trade_date)) d.trade_date) (c ∷ bars) b e h

  next_row-symbol :
      (table : List (MinuteRow R)) (symbol time end : Text) (r : MinuteRow R)
      → next_minute_bar_row table symbol time end ≡ some r
      → r.symbol ≡ symbol
  unfolding next_minute_bar_row
  next_row-symbol table symbol time end r e =
      All-get_elem? (λ (r : MinuteRow R). r.symbol ≡ symbol) _ 0 r e
        (All-sort_by _ _ _ (
          All-keep (λ (r : MinuteRow R). r.symbol ≡ symbol) _ table
            (λ r h.
              text_eq→eq r.symbol symbol
                (&&-eq-true _ _ (&&-eq-true _ _ (&&-eq-true _ _ h).0).0).1)))

module _ {R : Type 0} ⦃F : Float R⦄ where
  execution_bar-BarOf :
      (w : World R) (bars : List (MarketBar R)) (signal : Signal R) (b : MarketBar R)
      → All (BarOf signal.symbol) bars
      → execution_bar w bars signal ≡ some b
      → BarOf signal.symbol b
  unfolding execution_bar minute_market_bar
  execution_bar-BarOf w bars signal b h e =
      elim (Bool-cases (text_eq w.settings.data_frequency minute_frequency)) [
        | inr k ↦ next_bar-BarOf signal.symbol bars signal.signal_time b h (rw k at e)
        | inl k ↦
            elim (Option-cases (
              next_minute_bar_row w.minute_rows signal.symbol signal.signal_time
                w.settings.end_date)) [
                  | inl n ↦
                      next_bar-BarOf signal.symbol bars signal.signal_time b h (rw (k, n) at e)
                  | inr (r, n) ↦
                      let mine =
                        next_row-symbol w.minute_rows signal.symbol signal.signal_time
                          w.settings.end_date r n in
                      ground (arith, rw (k, n) at e, mine)
                ]
      ]

  event_bar-BarOf :
      (w : World R) (event : Event R) (b : MarketBar R)
      → HasOwnBars w
      → IsNamed event
      → event_bar w (get_or event.signal.symbol [] w.bars_by_symbol) event ≡ some b
      → BarOf event.signal.symbol b
  unfolding event_bar
  event_bar-BarOf w event b own named e = elim (Option-cases event.bar) [
    | inl n ↦ execution_bar-BarOf w _ event.signal b (own event.signal.symbol) (rw n at e)
    | inr (c, n) ↦
        let named' : c.symbol ≡ event.signal.symbol = rw n at named in
        ground (arith, rw n at e, named')
  ]

  refuse-Replays :
      (signal : Signal R) (status : Status) (bar : Option (MarketBar R)) (why : Skip) (s : State R)
      → Replays s
      → Replays (refuse signal status bar why s)
  unfolding refuse
  refuse-Replays signal status bar why s h = record { same = h.same; named = h.named }

  record_trade-Replays :
      (signal : Signal R) (trade : Trade R) (p : Portfolio R) (s : State R)
      → p.positions ≡ moved trade.side trade.symbol trade.quantity s.portfolio.positions
      → Replays s
      → Replays (record_trade signal trade p s)
  unfolding record_trade
  record_trade-Replays signal trade p s e h = record {
    same =
        e
        ∙ ap (moved trade.side trade.symbol trade.quantity) h.same
        ∙ sym (replayed-append [] s.trades trade);
    named = h.named;
  }

  schedule-Replays :
      (symbol : Text) (exit : Option (Event R) × Option ExitLog) (s : State R)
      → IsNamedExit symbol exit
      → Replays s
      → Replays (schedule exit s)
  unfolding schedule
  schedule-Replays symbol (none, line) s e h = record { same = h.same; named = h.named }
  schedule-Replays symbol (some x, line) s e h = record {
    same = h.same;
    named =
        All-sort_by event_before IsNamed (s.pending ++ (x ∷ []))
          (All-append IsNamed s.pending (x ∷ []) h.named (e, tt));
  }

  fill_buy-Replays :
      (w : World R) (bars : List (MarketBar R)) (bar : MarketBar R) (price : R) (signal : Signal R)
      (q : ℕ) (s : State R)
      → All (BarOf signal.symbol) bars
      → BarOf signal.symbol bar
      → Replays s
      → Ensures Replays (fill_buy w bars bar price signal q s)
  unfolding fill_buy trade_row Portfolio.buy position
  fill_buy-Replays w bars bar price signal q s all mine h =
      Ensures->>= (IsNamedExit signal.symbol) Replays
        (auto_exit_event w.minute_rows w.settings bars bar price q signal s.next_sequence) _
        (auto_exit_event-IsNamed w.minute_rows w.settings bars bar price q signal s.next_sequence
          all mine)
        λ exit named. schedule-Replays signal.symbol exit _ named (
          record_trade-Replays signal _ _ s
            (ap (λ x. moved bought x q s.portfolio.positions) (sym mine)) h)

  fill_sell-Replays :
      (w : World R) (bar : MarketBar R) (price : R) (signal : Signal R) (q : ℕ) (s : State R)
      → BarOf signal.symbol bar
      → Replays s
      → Replays (fill_sell w bar price signal q s)
  unfolding fill_sell trade_row Portfolio.sell position
  fill_sell-Replays w bar price signal q s mine h =
      record_trade-Replays signal _ _ s (ap (λ x. moved sold x q s.portfolio.positions) (sym mine))
        h

  on_event-Replays :
      (w : World R) (event : Event R) (s : State R)
      → HasOwnBars w
      → IsNamed event
      → Replays s
      → Ensures Replays (on_event w event s)
  on_event-Replays w event s own named h =
      let symbol = event.signal.symbol in
      on_event_rule w event Replays Replays (λ bars bar. All (BarOf symbol) bars × BarOf symbol bar)
        (λ bar e. (own symbol, event_bar-BarOf w event bar own named e))
        (λ status bar why t ne k. refuse-Replays event.signal status bar why t k)
        (λ bars bar price q t a g lots k.
          fill_buy-Replays w bars bar price event.signal q t g.0 g.1 k)
        (λ bars bar price q t g lots le k. fill_sell-Replays w bar price event.signal q t g.1 k) s h

  take-Replays :
      (event : Event R) (rest : List (Event R)) (s : State R)
      → s.pending ≡ event ∷ rest
      → Replays s
      → IsNamed event × Replays (record s { pending = rest })
  take-Replays event rest s e h =
      let all : IsNamed event × All IsNamed rest = rw e at h.named in
      (all.0, record { same = h.same; named = all.1 })

  pending_events-IsNamed :
      (index : ℕ) (signals : List (Signal R)) → All IsNamed (pending_events index signals)
  unfolding pending_events
  pending_events-IsNamed index [] = tt
  pending_events-IsNamed index (signal ∷ signals) = (tt, pending_events-IsNamed (index + 1) signals)

  start-Replays : (w : World R) (signals : List (Signal R)) → Replays (start w signals)
  unfolding start replayed_positions Portfolio.new_portfolio
  start-Replays w signals = record {
    same = refl;
    named =
        All-sort_by event_before IsNamed (pending_events 0 signals)
          (pending_events-IsNamed 0 signals);
  }

  -- When the broker finishes, the positions of its portfolio are the positions that its trade rows give
  -- when they are replayed from none, symbol by symbol and in the same order, and so the report's count of
  -- open positions is that of the portfolio. The condition is that the bars under each code carry that code.
  pub execute-replayed :
      (cancel : ℕ → Bool) (w : World R) (signals : List (Signal R)) {s : State R}
      → HasOwnBars w
      → execute_with_audit cancel w signals ≡ some (ok s)
      → (s.portfolio.positions ≡ replayed_positions [] s.trades)
        × (open_position_count s.trades ≡ count_open s.portfolio.positions)
  unfolding execute_with_audit open_position_count
  execute-replayed cancel w signals own e =
      let same =
        (run_inv cancel w Replays
          (λ event rest s more h.
            let (named, h') = take-Replays event rest s more h in
            on_event-Replays w event (record s { pending = rest }) own named h')
          (enough signals) 0 (start w signals) e (start-Replays w signals)).0.same in
      (same, ap count_open (sym same))
