-- ===== src/Backtest/Broker/Loop.antt =====
-- The invariant rule of the broker's loop.
use qmt_trading.Base.{
  ℕ, zero, suc, ◌+◌, ◌≡◌, Bool, some, [], ◌∷◌, List, arith, inl, inr, Bool-cases, List-cases,
}
use qmt_trading.Float.{Float}
use qmt_trading.Backtest.Types.{Event, ok}
use qmt_trading.Backtest.Ensuring.{Ensures, Result-cases}
use qmt_trading.Backtest.Broker.{State, World, on_event, run}

module _ {R : Type 0} ⦃F : Float R⦄ where
  -- What every round keeps holds when the loop has taken the last event.
  pub run_inv :
      (cancel : ℕ → Bool) (w : World R) (Inv : State R → Type 0)
      → ((event : Event R) (rest : List (Event R)) (s : State R)
          → s.pending ≡ event ∷ rest
          → Inv s
          → Ensures Inv (on_event w event (record s { pending = rest })))
      → (fuel index : ℕ) (s : State R) {s' : State R} → run cancel w fuel index s ≡ some (ok s')
      → Inv s
      → Inv s' × (s'.pending ≡ [])
  unfolding run
  run_inv cancel w Inv keep zero index s e h = cc
  run_inv cancel w Inv keep (suc fuel) index s {s'} e h = elim (List-cases s.pending) [
    | inl done ↦ let same : s ≡ s' = ground arith in rw (← same) (h, done)
    | inr (event, rest, more) ↦ elim (Bool-cases (cancel index)) [
      | inl stop ↦ absurd (ground arith)
      | inr go ↦ elim (Result-cases (on_event w event (record s { pending = rest }))) [
        | inl (t, round) ↦
            let after : Inv t = rw round at (keep event rest s more h) in
            run_inv cancel w Inv keep fuel (index + 1) t (ground arith) after
        | inr (x, round) ↦ absurd (ground arith)
      ]
    ]
  ]
