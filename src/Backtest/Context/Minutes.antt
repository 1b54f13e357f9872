-- ===== src/Backtest/Context/Minutes.antt =====
-- Which minute rows a strategy sees.
use qmt_trading.Base.{
  ℕ, All-keep, All-take, ◌≡◌, sym, ◌∙◌, inl, inr, true, false, ◌&&◌, &&-eq-true, Option, List, All,
  All-sort_by, Bool-cases,
}
use qmt_trading.Text.{Text, codes, text_le, text_eq, prefix}
use qmt_trading.Text.Order.{text_eq→eq}
use qmt_trading.Backtest.Exits.Rows.{MinuteRow}
use qmt_trading.Backtest.Context.{Context, clamp_datetime, list_minute_kline_rows, get_minute_bars}
use qmt_trading.Backtest.Context.Dates.{prefix-between}

module _ {R : Type 0} where
  -- A row of the symbol on the day.
  abbrev pub IsOfDay : Text → Text → MinuteRow R → Type 0
  IsOfDay symbol day r = (r.symbol ≡ symbol) × (prefix 10 r.datetime ≡ day)

  of_day :
      (symbol day start end period : Text) (r : MinuteRow R)
      → prefix 10 start ≡ day
      → prefix 10 end ≡ day
      → (text_eq r.period period
          && text_eq r.symbol symbol
          && text_le start r.datetime
          && text_le r.datetime end)
        ≡ true
      → IsOfDay symbol day r
  of_day symbol day start end period r p q h =
      let (rest, high) = &&-eq-true _ _ h in
      let (same, low) = &&-eq-true _ _ rest in
      (
        text_eq→eq r.symbol symbol (&&-eq-true _ _ same).1,
        prefix-between 10 start r.datetime end low high (p ∙ sym q) ∙ p,
      )

  rows-IsOfDay :
      (table : List (MinuteRow R)) (symbol day start end period : Text) (limit : ℕ)
      → prefix 10 start ≡ day
      → prefix 10 end ≡ day
      → All (IsOfDay symbol day) (list_minute_kline_rows table symbol start end period limit)
  unfolding list_minute_kline_rows
  rows-IsOfDay table symbol day start end period limit p q = All-take (IsOfDay symbol day) _ _ (
      All-sort_by _ (IsOfDay symbol day) _
        (All-keep (IsOfDay symbol day) _ table (λ r. of_day symbol day start end period r p q)))

  -- The minute rows that a strategy reads are of the symbol and of the day, whatever range it asks for.
  pub get_minute_bars-IsOfDay :
      (table : List (MinuteRow R)) (symbol : Text) (start_time end_time : Option Text)
      (c : Context R)
      → All (IsOfDay symbol c.current_date) (get_minute_bars table symbol start_time end_time c)
  unfolding get_minute_bars
  get_minute_bars-IsOfDay table symbol start_time end_time c =
      let start = clamp_datetime c start_time true in
      let end = clamp_datetime c end_time false in
      elim (Bool-cases (text_eq (prefix 10 start) c.current_date)) [
        | inr e ↦ rw (e, All) tt
        | inl e ↦ elim (Bool-cases (text_eq (prefix 10 end) c.current_date)) [
          | inr k ↦ rw (e, k, All) tt
          | inl k ↦
              rw (e, k)
                (rows-IsOfDay table symbol c.current_date start end (codes "1m") 2000
                  (text_eq→eq _ _ e) (text_eq→eq _ _ k))
        ]
      ]
