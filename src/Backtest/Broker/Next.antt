-- ===== src/Backtest/Broker/Next.antt =====
-- The bar that `_execution_bar` chooses for a signal, on minute bars and on daily bars.
use qmt_trading.Base.{
  ◌≡◌, ◌≢◌, refl, sym, Bool, true, false, ◌&&◌, ◌⊎◌, inl, inr, Option, none, some, List, [], ◌∷◌,
  ◌++◌, All, All-imp, keep-All, All-get_elem?, All-keep, All-sort_by, get_elem?, keep, sort_by,
  sort_by-All, sort_by-IsSorted, IsSorted, Bool-cases, Option-cases, arith,
}
use qmt_trading.Text.{codes, text_lt, text_le, text_eq, prefix}
use qmt_trading.Text.Order.{text_lt_irrefl, text_lt_asymm, text_le_trans}
use qmt_trading.Dict.{lookup}
use qmt_trading.Float.{Float}
use qmt_trading.Value.{text_or}
use qmt_trading.Backtest.Types.{MarketBar, Signal, minute_frequency}
use qmt_trading.Backtest.Matching.Lookahead.{next_bar_first_later}
use qmt_trading.Backtest.Exits.Rows.{MinuteRow, is_minute, next_minute_bar_row, minute_market_bar}
use qmt_trading.Backtest.Broker.{World, execution_bar}
use mathlib.Core.List.{Mem, mem-cons_self, mem-cons_of_mem}

head_first :
    {A : Type 0} (before : A → A → Bool) (xs : List A) (m : A)
    → before m m ≡ false
    → IsSorted before xs
    → get_elem? xs 0 ≡ some m
    → All (λ x. before x m ≡ false) xs
head_first before [] m r h e = tt
head_first before (x ∷ xs) m r h e =
    let same : x ≡ m = ground arith in
    let first : before x m ≡ false = rw same r in (first, rw same at h.0)

all_own : {A : Type 0} (xs ys : List A) → ((x : A) → Mem x xs → Mem x ys) → All (λ x. Mem x ys) xs
all_own [] ys f = tt
all_own (x ∷ xs) ys f = (f x mem-cons_self, all_own xs ys (λ z m. f z (mem-cons_of_mem x m)))

-- A test that fails on what is kept fails on the rest together with the filter.
false_beyond :
    {A : Type 0} (p q : A → Bool) (xs : List A)
    → All (λ x. q x ≡ false) (keep p xs)
    → All (λ x. (p x && q x) ≡ false) xs
false_beyond p q [] h = tt
false_beyond p q (x ∷ xs) h = elim (Bool-cases (p x)) [
  | inl e ↦
      let h' : (q x ≡ false) × All (λ y. q y ≡ false) (keep p xs) = rw e at h in
      (ground (arith, e, h'.0), false_beyond p q xs h'.1)
  | inr e ↦ (rw e refl, false_beyond p q xs (rw e at h))
]

module _ {R : Type 0} where
  -- The rows of minutes after the signal, up to the end of the task's range.
  abbrev pub is_after : World R → Signal R → MinuteRow R → Bool
  is_after w signal r =
      is_minute r
      && text_eq r.symbol signal.symbol
      && text_lt signal.signal_time r.datetime
      && text_le r.datetime (w.settings.end_date ++ codes " 23:59:59")

  abbrev pub on_minutes : World R → Bool
  on_minutes w = text_eq w.settings.data_frequency minute_frequency

  abbrev earlier : MinuteRow R → MinuteRow R → Bool
  earlier a b = text_lt a.datetime b.datetime

  -- The row is one of those after the signal, and none of them is earlier.
  abbrev pub IsEarliest : World R → Signal R → MinuteRow R → Type 0
  IsEarliest w signal r =
      Mem r w.minute_rows
      × (is_after w signal r ≡ true)
      × All (λ q. (is_after w signal q && text_lt q.datetime r.datetime) ≡ false) w.minute_rows

  -- The bar is the first of the list whose date is after the signal's date.
  abbrev pub IsNextDay : List (MarketBar R) → Signal R → MarketBar R → Type 0
  IsNextDay bars signal bar =
      (before : List (MarketBar R)) × (after : List (MarketBar R)) × (bars ≡ before ++ bar ∷ after)
      × All (λ (b : MarketBar R). text_lt (prefix 10 signal.signal_time) b.trade_date ≡ false)
          before
      × (text_lt (prefix 10 signal.signal_time) bar.trade_date ≡ true)

  earlier_rows-IsSorted : (rows : List (MinuteRow R)) → IsSorted earlier (sort_by earlier rows)
  earlier_rows-IsSorted rows =
      sort_by-IsSorted earlier (λ x y. text_lt_asymm x.datetime y.datetime)
        (λ x y z. text_le_trans x.datetime y.datetime z.datetime) rows

  abbrev next_row : World R → Signal R → Option (MinuteRow R)
  next_row w signal =
      next_minute_bar_row w.minute_rows signal.symbol signal.signal_time w.settings.end_date

  next_row-IsEarliest :
      (w : World R) (signal : Signal R) (r : MinuteRow R)
      → next_row w signal ≡ some r
      → IsEarliest w signal r
  unfolding next_minute_bar_row
  next_row-IsEarliest w signal r e =
      let p = is_after w signal in
      let rows = keep p w.minute_rows in
      let own =
        keep-All (λ x. Mem x w.minute_rows) p w.minute_rows
          (all_own w.minute_rows w.minute_rows (λ x m. m)) in
      let first =
        head_first earlier (sort_by earlier rows) r (text_lt_irrefl r.datetime)
          (earlier_rows-IsSorted rows) e in
      (
        All-get_elem? (λ x. Mem x w.minute_rows) (sort_by earlier rows) 0 r e
            (All-sort_by earlier (λ x. Mem x w.minute_rows) rows own),
        All-get_elem? (λ x. p x ≡ true) (sort_by earlier rows) 0 r e
            (All-sort_by earlier (λ x. p x ≡ true) rows
              (All-keep (λ x. p x ≡ true) p w.minute_rows (λ x h. h))),
        false_beyond p (λ q. text_lt q.datetime r.datetime) w.minute_rows
            (sort_by-All earlier (λ q. text_lt q.datetime r.datetime ≡ false) rows first),
      )

  none_kept : (rows : List (MinuteRow R)) → get_elem? rows 0 ≡ none → All (λ r. true ≡ false) rows
  none_kept [] e = tt
  none_kept (r ∷ rows) e = absurd (ground arith)

  next_row-none :
      (w : World R) (signal : Signal R)
      → next_row w signal ≡ none
      → All (λ q. is_after w signal q ≡ false) w.minute_rows
  unfolding next_minute_bar_row
  next_row-none w signal e =
      let p = is_after w signal in
      All-imp (λ q. (p q && true) ≡ false) (λ q. p q ≡ false) w.minute_rows (λ q h. ground arith)
        (false_beyond p (λ q. true) w.minute_rows
          (sort_by-All earlier (λ q. true ≡ false) (keep p w.minute_rows)
            (none_kept (sort_by earlier (keep p w.minute_rows)) e)))

module _ {R : Type 0} ⦃F : Float R⦄ where
  -- The bar that `_execution_bar` returns for a signal with a time is later than the signal. On
  -- minute bars it is made from the earliest minute row of the symbol after the signal's time and up
  -- to the end of the range. On daily bars, and where there is no such row, it is the first bar of the
  -- list whose date is after the signal's date.
  pub execution_bar-IsNext :
      (w : World R) (bars : List (MarketBar R)) (signal : Signal R) {bar : MarketBar R}
      → signal.signal_time ≢ []
      → execution_bar w bars signal ≡ some bar
      → ((on_minutes w ≡ true)
          × (r : MinuteRow R) × IsEarliest w signal r
          × (bar ≡ minute_market_bar r (text_or (lookup (codes "name") signal.extra) r.symbol)))
        ⊎ (All (λ q. (on_minutes w && is_after w signal q) ≡ false) w.minute_rows
            × IsNextDay bars signal bar)
  unfolding execution_bar
  execution_bar-IsNext w bars signal {bar} ne e = elim (Bool-cases (on_minutes w)) [
    | inr k ↦ inr (
      All-imp (λ q. Unit {0}) (λ q. (on_minutes w && is_after w signal q) ≡ false) w.minute_rows
          (λ q u. rw k refl) (units_of w.minute_rows),
      next_bar_first_later bars signal.signal_time ne (rw k at e),
    )
    | inl k ↦ elim (Option-cases (next_row w signal)) [
      | inr (r, found) ↦
          let made : some
                (minute_market_bar r (text_or (lookup (codes "name") signal.extra) r.symbol))
              ≡ some bar =
            rw (k, found) at e in
          let same : minute_market_bar r (text_or (lookup (codes "name") signal.extra) r.symbol)
              ≡ bar =
            ground (arith, made) in
          inl (k, r, next_row-IsEarliest w signal r found, sym same)
      | inl n ↦ inr (
        All-imp (λ q. is_after w signal q ≡ false)
            (λ q. (on_minutes w && is_after w signal q) ≡ false) w.minute_rows
            (λ q h. ground (arith, h)) (next_row-none w signal n),
        next_bar_first_later bars signal.signal_time ne (rw (k, n) at e),
      )
    ]
  ]
    where
      units_of : {A : Type 0} (xs : List A) → All (λ x. Unit {0}) xs
      units_of [] = tt
      units_of (x ∷ xs) = (tt, units_of xs)
