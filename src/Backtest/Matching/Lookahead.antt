-- ===== src/Backtest/Matching/Lookahead.antt =====
-- The bar that `next_bar` chooses, and the bars before it.
use qmt_trading.Base.{
  ◌≡◌, ◌≢◌, refl, Bool, true, false, some, inl, inr, List, [], ◌∷◌, ◌++◌, arith, All, find_first,
  Bool-cases, ap,
}
use qmt_trading.Text.{Text, text_lt, prefix}
use qmt_trading.Backtest.Types.{MarketBar}
use qmt_trading.Backtest.Matching.{next_bar}

-- The first element that passes, with those that it passes over.
pub find_first_splits {ℓ} :
    {A : Type ℓ} (p : A → Bool) (xs : List A) {x : A}
    → find_first p xs ≡ some x
    → (before : List A) × (after : List A) × (xs ≡ before ++ x ∷ after)
      × All (λ y. p y ≡ false) before
      × (p x ≡ true)
find_first_splits p [] h = cc
find_first_splits p (y ∷ ys) {x} h = elim (Bool-cases (p y)) [
  | inl passes ↦ let e : y ≡ x = ground arith in ([], ys, rw e, tt, rw (← e) passes)
  | inr fails ↦
      let (before, after, e, all, hit) = find_first_splits p ys (rw fails at h) in
      (y ∷ before, after, ap (λ l. y ∷ l) e, (fails, all), hit)
]

-- For a signal that has a time, `next_bar` chooses the first bar whose date is after the signal's date:
-- all bars before it in the list are of the signal's date or earlier.
pub next_bar_first_later :
    {R : Type 0} (bars : List (MarketBar R)) (signal_time : Text) {bar : MarketBar R}
    → signal_time ≢ []
    → next_bar bars signal_time ≡ some bar
    → (before : List (MarketBar R)) × (after : List (MarketBar R)) × (bars ≡ before ++ bar ∷ after)
      × All (λ (b : MarketBar R). text_lt (prefix 10 signal_time) b.trade_date ≡ false) before
      × (text_lt (prefix 10 signal_time) bar.trade_date ≡ true)
unfolding next_bar
next_bar_first_later [] signal_time ne h = cc
next_bar_first_later (b ∷ bars) [] ne h = absurd (ne refl)
next_bar_first_later (b ∷ bars) (c ∷ t) ne h = find_first_splits _ (b ∷ bars) h
