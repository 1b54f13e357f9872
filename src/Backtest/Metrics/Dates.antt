-- ===== src/Backtest/Metrics/Dates.antt =====
-- Which dates are in the set of dates of the equity curve.
use qmt_trading.Base.{
  ◌≡◌, refl, inl, inr, Bool, false, ◌||◌, ◌&&◌, List, [], ◌∷◌, ◌++◌, keep, any_of, map, Bool-cases,
  arith,
}
use qmt_trading.Text.{Text, text_eq, text_lt}
use qmt_trading.Text.Order.{text_eq→eq}
use qmt_trading.Dict.{Dict}
use qmt_trading.Backtest.Types.{MarketBar}
use qmt_trading.Backtest.Exits.Rows.{insert_unique, sorted_set}
use qmt_trading.Backtest.Metrics.{dates_of}

abbrev pub contains_date : Text → List Text → Bool
contains_date d es = any_of (text_eq d) es

contains_date-insert_unique :
    (x d : Text) (es : List Text)
    → contains_date x (insert_unique d es) ≡ (text_eq x d || contains_date x es)
unfolding insert_unique
contains_date-insert_unique x d [] = ground arith
contains_date-insert_unique x d (e ∷ es) = elim (Bool-cases (text_lt d e)) [
  | inl k ↦ rw k (ground arith)
  | inr k ↦ elim (Bool-cases (text_eq d e)) [
    | inl k' ↦ let same = text_eq→eq d e k' in rw (k, k') (rw same (ground arith))
    | inr k' ↦ rw (k, k') (ground (arith, contains_date-insert_unique x d es))
  ]
]

pub contains_date-sorted_set :
    (x : Text) (ds : List Text) → contains_date x (sorted_set ds) ≡ contains_date x ds
unfolding sorted_set
contains_date-sorted_set x [] = refl
contains_date-sorted_set x (d ∷ ds) =
    ground (arith, contains_date-insert_unique x d (sorted_set ds), contains_date-sorted_set x ds)

contains_date-append :
    (x : Text) (ds es : List Text)
    → contains_date x (ds ++ es) ≡ (contains_date x ds || contains_date x es)
contains_date-append x [] es = refl
contains_date-append x (d ∷ ds) es = ground (arith, contains_date-append x ds es)

pub contains_date-keep :
    (x : Text) (p : Text → Bool) (ds : List Text)
    → contains_date x (keep p ds) ≡ (p x && contains_date x ds)
contains_date-keep x p [] = ground arith
contains_date-keep x p (d ∷ ds) = elim (Bool-cases (text_eq x d)) [
  | inl k ↦
      let same = text_eq→eq x d k in
      elim (Bool-cases (p d)) [
        | inl m ↦ rw (m, k, same, m) refl
        | inr m ↦ rw m (ground (arith, contains_date-keep x p ds))
      ]
  | inr k ↦ elim (Bool-cases (p d)) [
    | inl m ↦ rw (m, k) (contains_date-keep x p ds)
    | inr m ↦ rw (m, k) (contains_date-keep x p ds)
  ]
]

module _ {R : Type 0} where
  abbrev on_date : Text → MarketBar R → Bool
  on_date d b = text_eq d b.trade_date

  -- Some symbol has a bar of the date.
  abbrev pub has_bar : Text → Dict (List (MarketBar R)) → Bool
  has_bar d [] = false
  has_bar d ((symbol, bars) ∷ rest) = any_of (on_date d) bars || has_bar d rest

  contains_date-map :
      (d : Text) (bars : List (MarketBar R))
      → contains_date d (map (λ (b : MarketBar R). b.trade_date) bars) ≡ any_of (on_date d) bars
  contains_date-map d [] = refl
  contains_date-map d (b ∷ bars) = ground (arith, contains_date-map d bars)

  pub contains_date-dates_of :
      (d : Text) (bars_by_symbol : Dict (List (MarketBar R)))
      → contains_date d (dates_of bars_by_symbol) ≡ has_bar d bars_by_symbol
  contains_date-dates_of d [] = refl
  contains_date-dates_of d ((symbol, bars) ∷ rest) = ground (
    arith,
    contains_date-append d (map (λ (b : MarketBar R). b.trade_date) bars) (dates_of rest),
    contains_date-map d bars,
    contains_date-dates_of d rest,
  )
