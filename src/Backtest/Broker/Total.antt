-- ===== src/Backtest/Broker/Total.antt =====
-- How many rounds the broker's loop takes.
use qmt_trading.Base.{
  ℕ, zero, suc, ◌+◌, ◌*◌, ◌≤◌, ◌<◌, ◌≡◌, refl, Bool, Option, none, some, List, [], ◌∷◌, ◌++◌, arith,
  length, insert_sorted, sort_by, inl, inr, Bool-cases, List-cases,
}
use qmt_trading.Float.{Float}
use qmt_trading.Backtest.Types.{Action, buy, Signal, Event, ExitLog, Result, ok, raise, cancelled}
use qmt_trading.Backtest.Ensuring.{Ensures, Ensures->>=, Result-cases}
use qmt_trading.Backtest.Exits.Sells.{IsSale, auto_exit_event-IsSale}
use qmt_trading.Backtest.Broker.{
  State, World, event_before, refuse, record_trade, schedule, fill_buy, fill_sell, on_event, run,
  pending_events, start, enough, execute_with_audit,
}
use qmt_trading.Backtest.Broker.Rule.{on_event_rule}

-- How many rounds an event may still cause.
abbrev weight_of : Action → ℕ
weight_of buy = 2
weight_of _ = 1

module _ {R : Type 0} where
  abbrev weight : List (Event R) → ℕ
  weight [] = 0
  weight (e ∷ es) = weight_of e.signal.action + weight es

  weight-append : (xs ys : List (Event R)) → weight (xs ++ ys) ≡ weight xs + weight ys
  weight-append [] ys = omega arith
  weight-append (x ∷ xs) ys = omega (arith, weight-append xs ys)

  weight-insert_sorted :
      (before : Event R → Event R → Bool) (e : Event R) (es : List (Event R))
      → weight (insert_sorted before e es) ≡ weight_of e.signal.action + weight es
  unfolding insert_sorted
  weight-insert_sorted before e [] = refl
  weight-insert_sorted before e (f ∷ es) = ground (arith, weight-insert_sorted before e es)

  weight-sort_by :
      (before : Event R → Event R → Bool) (es : List (Event R))
      → weight (sort_by before es) ≡ weight es
  unfolding sort_by
  weight-sort_by before [] = refl
  weight-sort_by before (e ∷ es) =
      omega (arith, weight-insert_sorted before e (sort_by before es), weight-sort_by before es)

module _ {R : Type 0} ⦃F : Float R⦄ where
  weight-schedule :
      (exit : Option (Event R) × Option ExitLog) (s : State R)
      → IsSale exit
      → weight (schedule exit s).pending ≤ weight s.pending + 1
  unfolding schedule
  weight-schedule (none, line) s h = ground arith
  weight-schedule (some e, line) s h =
      ground
        (arith, weight-sort_by event_before (s.pending ++ e ∷ []), weight-append s.pending (e ∷ []))

  -- One round uses up the event that it takes, beyond what it adds.
  on_event-lighter :
      (w : World R) (event : Event R) (s : State R)
      → Ensures
          (λ (s' : State R). weight s'.pending < weight s.pending + weight_of event.signal.action)
          (on_event w event s)
  unfolding refuse fill_buy fill_sell record_trade
  on_event-lighter w event s =
      on_event_rule w event (λ (t : State R). weight t.pending ≡ weight s.pending)
        (λ (t : State R). weight t.pending < weight s.pending + weight_of event.signal.action)
        (λ bars bar. Unit {0}) (λ bar e. tt) (λ status bar why t ne h. ground arith)
        (λ bars bar price q t a _ lots h.
          Ensures->>= IsSale _ _ _
            (auto_exit_event-IsSale w.minute_rows w.settings bars bar price q event.signal
              t.next_sequence)
            (λ exit sale. grind (arith, weight-schedule, a, h)))
        (λ bars bar price q t _ lots le h. ground arith) s refl

  -- With fuel above the weight of what is pending the loop ends.
  run_total :
      (cancel : ℕ → Bool) (w : World R) (fuel index : ℕ) (s : State R)
      → weight s.pending < fuel
      → (r : Result (State R)) × (run cancel w fuel index s ≡ some r)
  unfolding run
  run_total cancel w zero index s h = absurd (omega arith)
  run_total cancel w (suc fuel) index s h = elim (List-cases s.pending) [
    | inl done ↦ (ok s, ground arith)
    | inr (event, rest, more) ↦ elim (Bool-cases (cancel index)) [
      | inl stop ↦ (raise cancelled, ground arith)
      | inr go ↦ elim (Result-cases (on_event w event (record s { pending = rest }))) [
        | inl (t, round) ↦
            let lighter = rw round at (on_event-lighter w event (record s { pending = rest })) in
            let (r, q) = run_total cancel w fuel (index + 1) t (ground arith) in (r, ground arith)
        | inr (x, round) ↦ (raise x, ground arith)
      ]
    ]
  ]

  weight-pending_events :
      (index : ℕ) (signals : List (Signal R))
      → weight (pending_events index signals) ≤ 2 * length signals
  unfolding pending_events
  weight-pending_events index [] = omega arith
  weight-pending_events index (signal ∷ signals) =
      ground (arith, weight-pending_events (index + 1) signals)

  -- The broker returns on every list of signals, whatever the market and whenever it is cancelled:
  -- two rounds for each signal are enough, and no run is cut off.
  pub execute_total :
      (cancel : ℕ → Bool) (w : World R) (signals : List (Signal R))
      → (r : Result (State R)) × (execute_with_audit cancel w signals ≡ some r)
  unfolding execute_with_audit start
  execute_total cancel w signals = run_total cancel w (enough signals) 0 (start w signals) (
      omega (
        arith,
        weight-sort_by event_before (pending_events 0 signals),
        weight-pending_events 0 signals,
      ))
