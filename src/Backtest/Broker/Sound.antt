-- ===== src/Backtest/Broker/Sound.antt =====
-- What holds of every state of the broker's loop, and so of its result.
use qmt_trading.Base.{
  ℕ, suc, ◌+◌, ◌≤◌, ◌<◌, ◌≡◌, refl, Bool, Option, none, some, List, [], ◌∷◌, ◌++◌, arith, length,
  length-append, All, All-append, length-sort_by, IsSorted,
}
use qmt_trading.Float.{Float, of_ℕ, mul, round}
use qmt_trading.Backtest.Types.{
  MarketBar, Signal, Event, ExitLog, Trade, Audit, Status, filled, Skip, ok,
}
use qmt_trading.Backtest.Ensuring.{Ensures, Ensures->>=, Ensures-unit}
use qmt_trading.Backtest.Portfolio.{Portfolio}
use qmt_trading.Backtest.Portfolio.Consistent.{
  IsConsistent, new_portfolio-IsConsistent, buy-IsConsistent, sell-IsConsistent,
}
use qmt_trading.Backtest.Exits.{auto_exit_event}
use qmt_trading.Backtest.Broker.{
  State, World, event_before, refuse, record_trade, schedule, fill_buy, fill_sell, on_event,
  pending_events, start, enough, execute_with_audit,
}
use qmt_trading.Backtest.Broker.Rows.{audit_row, audit_of_trade}
use qmt_trading.Backtest.Broker.Order.{sort_events-IsSorted}
use qmt_trading.Backtest.Broker.Loop.{run_inv}
use qmt_trading.Backtest.Broker.Rule.{IsLots, NoTrade, on_event_rule}

-- The audit rows of filled signals.
abbrev pub fills : {R : Type 0} → List (Audit R) → ℕ
fills [] = 0
fills (a ∷ audits) = elim a.status [ filled ↦ suc (fills audits) | _ ↦ fills audits ]

module _ {R : Type 0} where
  fills-append : (xs ys : List (Audit R)) → fills (xs ++ ys) ≡ fills xs + fills ys
  fills-append [] ys = omega arith
  fills-append (x ∷ xs) ys = ground (arith, fills-append xs ys)

  abbrev pub IsLotTrade : Trade R → Type 0
  IsLotTrade t = IsLots t.quantity

  -- `n` signals came in, and `k` events are taken without an audit row yet.
  pub record Inv (n k : ℕ) (s : State R) : Type 0 where
    pub lots_agree : IsConsistent s.portfolio
    pub whole_lots : All IsLotTrade s.trades
    pub one_row_each : length s.audits + length s.pending + k ≡ s.next_sequence
    pub rows_of_trades : fills s.audits ≡ length s.trades
    pub all_signals : n ≤ s.next_sequence
    pub one_exit_each : s.next_sequence ≤ n + length s.trades
    pub in_order : IsSorted event_before s.pending

module _ {R : Type 0} ⦃F : Float R⦄ (n : ℕ) where
  refuse-Inv :
      (signal : Signal R) (status : Status) (bar : Option (MarketBar R)) (why : Skip) (s : State R)
      → NoTrade status
      → Inv n 1 s
      → Inv n 0 (refuse signal status bar why s)
  unfolding refuse
  refuse-Inv signal status bar why s ne h = record {
    lots_agree = h.lots_agree;
    whole_lots = h.whole_lots;
    one_row_each = omega (arith, h.one_row_each, length-append s.audits _);
    rows_of_trades = ground (
      arith,
      h.rows_of_trades,
      fills-append s.audits (audit_row signal status bar (some why) ∷ []),
    );
    all_signals = h.all_signals;
    one_exit_each = h.one_exit_each;
    in_order = h.in_order;
  }

  record_trade-Inv :
      (signal : Signal R) (trade : Trade R) (p : Portfolio R) (s : State R)
      → IsLotTrade trade
      → IsConsistent p
      → Inv n 1 s
      → Inv n 0 (record_trade signal trade p s)
  unfolding record_trade
  record_trade-Inv signal trade p s lot c h = record {
    lots_agree = c;
    whole_lots = All-append IsLotTrade s.trades _ h.whole_lots (lot, tt);
    one_row_each = omega (arith, h.one_row_each, length-append s.audits _);
    rows_of_trades = ground (
      arith,
      h.rows_of_trades,
      fills-append s.audits (audit_of_trade signal filled trade ∷ []),
      length-append s.trades (trade ∷ []),
    );
    all_signals = h.all_signals;
    one_exit_each = omega (arith, h.one_exit_each, length-append s.trades _);
    in_order = h.in_order;
  }

  schedule-Inv :
      (exit : Option (Event R) × Option ExitLog) (s : State R)
      → s.next_sequence < n + length s.trades
      → Inv n 0 s
      → Inv n 0 (schedule exit s)
  unfolding schedule
  schedule-Inv (none, line) s room h = record {
    lots_agree = h.lots_agree;
    whole_lots = h.whole_lots;
    one_row_each = h.one_row_each;
    rows_of_trades = h.rows_of_trades;
    all_signals = h.all_signals;
    one_exit_each = h.one_exit_each;
    in_order = h.in_order;
  }
  schedule-Inv (some e, line) s room h = record {
    lots_agree = h.lots_agree;
    whole_lots = h.whole_lots;
    one_row_each = omega (
      arith,
      h.one_row_each,
      length-sort_by event_before (s.pending ++ e ∷ []),
      length-append s.pending (e ∷ []),
    );
    rows_of_trades = h.rows_of_trades;
    all_signals = omega (arith, h.all_signals);
    one_exit_each = omega arith;
    in_order = sort_events-IsSorted (s.pending ++ e ∷ []);
  }

  fill_buy-Inv :
      (w : World R) (bars : List (MarketBar R)) (bar : MarketBar R) (price : R) (signal : Signal R)
      (q : ℕ) (s : State R)
      → IsLots q
      → Inv n 1 s
      → Ensures (Inv n 0) (fill_buy w bars bar price signal q s)
  unfolding fill_buy record_trade
  fill_buy-Inv w bars bar price signal q s lots h =
      Ensures->>= (λ x. Unit {0}) (Inv n 0)
        (auto_exit_event w.minute_rows w.settings bars bar price q signal s.next_sequence) _
        (Ensures-unit _)
        λ exit _. schedule-Inv exit _ (omega (arith, h.one_exit_each, length-append s.trades _)) (
          record_trade-Inv signal _ _ s lots
            (buy-IsConsistent signal.symbol bar.trade_date price q _ s.portfolio
              (omega (arith, lots.0)) h.lots_agree)
            h)

  -- One round, from a state whose next event is taken off.
  on_event-Inv :
      (w : World R) (event : Event R) (s : State R)
      → Inv n 1 s
      → Ensures (Inv n 0) (on_event w event s)
  unfolding fill_sell
  on_event-Inv w event s h =
      on_event_rule w event (Inv n 1) (Inv n 0) (λ bars bar. Unit {0}) (λ bar e. tt)
        (λ status bar why t ne k. refuse-Inv event.signal status bar why t ne k)
        (λ bars bar price q t a _ lots k. fill_buy-Inv w bars bar price event.signal q t lots k)
        (λ bars bar price q t _ lots le k.
          record_trade-Inv event.signal _ _ t lots
            (sell-IsConsistent event.signal.symbol bar.trade_date price q
              (round 2 (mul (mul price (of_ℕ q)) w.settings.fee_rate))
              (round 2 (mul (mul price (of_ℕ q)) w.settings.stamp_tax_rate)) t.portfolio le
              k.lots_agree)
            k)
        s h

  pub take-Inv :
      (event : Event R) (rest : List (Event R)) (s : State R)
      → s.pending ≡ event ∷ rest
      → Inv n 0 s
      → Inv n 1 (record s { pending = rest })
  take-Inv event rest s e h = record {
    lots_agree = h.lots_agree;
    whole_lots = h.whole_lots;
    one_row_each = ground (arith, h.one_row_each);
    rows_of_trades = h.rows_of_trades;
    all_signals = h.all_signals;
    one_exit_each = h.one_exit_each;
    in_order = (rw e at h.in_order).1;
  }

module _ {R : Type 0} ⦃F : Float R⦄ where
  length-pending_events :
      (index : ℕ) (signals : List (Signal R))
      → length (pending_events index signals) ≡ length signals
  unfolding pending_events
  length-pending_events index [] = refl
  length-pending_events index (signal ∷ signals) =
      omega (arith, length-pending_events (index + 1) signals)

  pub start-Inv :
      (w : World R) (signals : List (Signal R)) → Inv (length signals) 0 (start w signals)
  unfolding start
  start-Inv w signals = record {
    lots_agree = new_portfolio-IsConsistent w.settings.initial_cash;
    whole_lots = tt;
    one_row_each = omega (
      arith,
      length-sort_by event_before (pending_events 0 signals),
      length-pending_events 0 signals,
    );
    rows_of_trades = refl;
    all_signals = omega arith;
    one_exit_each = omega arith;
    in_order = sort_events-IsSorted (pending_events 0 signals);
  }

  pub execute-Inv :
      (cancel : ℕ → Bool) (w : World R) (signals : List (Signal R)) {s : State R}
      → execute_with_audit cancel w signals ≡ some (ok s)
      → Inv (length signals) 0 s × (s.pending ≡ [])
  unfolding execute_with_audit
  execute-Inv cancel w signals e =
      run_inv cancel w (Inv (length signals) 0)
        (λ event rest s more h.
          on_event-Inv (length signals) w event (record s { pending = rest })
            (take-Inv (length signals) event rest s more h))
        (enough signals) 0 (start w signals) e (start-Inv w signals)

  -- When the broker finishes, the share counts of its portfolio are the sums of the lots left, for
  -- every symbol, and each of its trades is of whole lots of 100 shares, one lot at least.
  pub execute_sound :
      (cancel : ℕ → Bool) (w : World R) (signals : List (Signal R)) {s : State R}
      → execute_with_audit cancel w signals ≡ some (ok s)
      → IsConsistent s.portfolio × All IsLotTrade s.trades
  execute_sound cancel w signals e =
      let h = (execute-Inv cancel w signals e).0 in (h.lots_agree, h.whole_lots)
