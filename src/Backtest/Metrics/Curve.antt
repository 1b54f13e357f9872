-- ===== src/Backtest/Metrics/Curve.antt =====
-- Which prices the equity curve uses, and which days it has.
use qmt_trading.Base.{
  Bool, ◌&&◌, keep, ◌≡◌, refl, ap, ◌∙◌, map, ◌⊎◌, inl, inr, true, List, [], ◌∷◌, ◌++◌, Bool-cases,
}
use qmt_trading.Text.{Text, text_le}
use qmt_trading.Dict.{Dict, get_or}
use qmt_trading.Float.{Float, zero_f}
use qmt_trading.Backtest.Types.{MarketBar, Settings, Trade}
use qmt_trading.Backtest.Metrics.{
  close_from, close_price, dates_of, EquityRow, Replay, equity_rows, equity_dates, or_first,
  build_equity,
}
use qmt_trading.Backtest.Context.Dates.{IsIncreasing, sorted_set-IsIncreasing}
use qmt_trading.Backtest.Metrics.Dates.{
  contains_date, contains_date-sorted_set, contains_date-keep, contains_date-dates_of, has_bar,
}

-- A bar of the list that is not after the date, and has the price.
abbrev pub Quoted : {R : Type 0} → R → Text → List (MarketBar R) → Type 0
Quoted {R} price date bars =
    (before : List (MarketBar R)) × (bar : MarketBar R) × (after : List (MarketBar R)) × (bars
      ≡ before ++ bar ∷ after)
    × (text_le bar.trade_date date ≡ true)
    × (price ≡ bar.close)

abbrev pub or_start : Text → List Text → List Text
or_start start [] = start ∷ []
or_start start (d ∷ ds) = d ∷ ds

module _ {R : Type 0} where
  close_from-Quoted :
      (latest : R) (date : Text) (bars : List (MarketBar R))
      → (close_from latest date bars ≡ latest) ⊎ Quoted (close_from latest date bars) date bars
  unfolding close_from
  close_from-Quoted latest date [] = inl refl
  close_from-Quoted latest date (b ∷ bars) = elim (Bool-cases (text_le b.trade_date date)) [
    | inr e ↦ rw e (inl refl)
    | inl e ↦ elim (close_from-Quoted b.close date bars) [
      | inl h ↦ rw e (inr ([], b, bars, refl, e, h))
      | inr (before, bar, rest, split, early, h) ↦
          rw e (inr (b ∷ before, bar, rest, ap (λ bs. b ∷ bs) split, early, h))
    ]
  ]

module _ {R : Type 0} ⦃F : Float R⦄ where
  -- The equity of a day uses no later price: `_close_price` is zero, or the close of a bar of the
  -- symbol whose date is not after the day.
  pub close_price-Quoted :
      (symbol date : Text) (bars_by_symbol : Dict (List (MarketBar R)))
      → (close_price symbol date bars_by_symbol ≡ zero_f)
        ⊎ Quoted (close_price symbol date bars_by_symbol) date (get_or symbol [] bars_by_symbol)
  unfolding close_price
  close_price-Quoted symbol date bars_by_symbol =
      close_from-Quoted zero_f date (get_or symbol [] bars_by_symbol)

  abbrev pub row_dates : List (EquityRow R) → List Text
  row_dates rows = map (λ (r : EquityRow R). r.trade_date) rows

  equity_rows-dates :
      (bars_by_symbol : Dict (List (MarketBar R))) (trades : List (Trade R)) (dates : List Text)
      (r : Replay R)
      → row_dates (equity_rows bars_by_symbol trades r dates) ≡ dates
  unfolding equity_rows
  equity_rows-dates bars_by_symbol trades [] r = refl
  equity_rows-dates bars_by_symbol trades (date ∷ dates) r =
      ap (λ ds. date ∷ ds) (equity_rows-dates bars_by_symbol trades dates _)

  or_first-dates :
      (settings : Settings R) (rows : List (EquityRow R))
      → row_dates (or_first settings rows) ≡ or_start settings.start_date (row_dates rows)
  or_first-dates settings [] = refl
  or_first-dates settings (row ∷ rows) = refl

  equity_dates-contains :
      (settings : Settings R) (bars_by_symbol : Dict (List (MarketBar R))) (d : Text)
      → contains_date d (equity_dates settings bars_by_symbol)
        ≡ (text_le settings.start_date d && text_le d settings.end_date && has_bar d bars_by_symbol)
  unfolding equity_dates
  equity_dates-contains settings bars_by_symbol d =
      let in_range : Text → Bool =
        λ x. text_le settings.start_date x && text_le x settings.end_date in
      contains_date-sorted_set d (keep in_range (dates_of bars_by_symbol))
      ∙ contains_date-keep d in_range (dates_of bars_by_symbol)
      ∙ ap (λ b. in_range d && b) (contains_date-dates_of d bars_by_symbol)

  -- The equity curve has one row for each day of a list, or one row of the first day of the range
  -- where the list is empty. The list is strictly increasing, and it contains a date exactly where the
  -- date is in the range, both ends included, and some symbol has a bar of it.
  pub build_equity-dates :
      (settings : Settings R) (bars_by_symbol : Dict (List (MarketBar R))) (trades : List (Trade R))
      (d : Text)
      → let days = equity_dates settings bars_by_symbol in
        (row_dates (build_equity settings bars_by_symbol trades)
          ≡ or_start settings.start_date days)
        × IsIncreasing days
        × (contains_date d days ≡ (
            text_le settings.start_date d
            && text_le d settings.end_date
            && has_bar d bars_by_symbol))
  unfolding build_equity equity_dates
  build_equity-dates settings bars_by_symbol trades d = (
    or_first-dates settings _
        ∙ ap (or_start settings.start_date)
            (equity_rows-dates bars_by_symbol trades (equity_dates settings bars_by_symbol) _),
    sorted_set-IsIncreasing (
        keep (λ x. text_le settings.start_date x && text_le x settings.end_date)
          (dates_of bars_by_symbol)),
    equity_dates-contains settings bars_by_symbol d,
  )
