-- ===== src/Backtest/Context/Scanned.antt =====
-- Which triggers a strategy gets from its scan.
use qmt_trading.Base.{
  ℕ, zero, suc, ◌≡◌, refl, sym, ap, ◌∙◌, Bool, true, &&-eq-true, List, [], ◌∷◌, ◌++◌, All, All-imp,
  All-keep, keep, length, arith,
}
use mathlib.Core.Bool.{Bool-set}
use mathlib.Core.Logic.{∥∥₁_elim}
use mathlib.Core.List.{Mem, Memᴰ}
use qmt_trading.Text.{Text, codes, prefix}
use qmt_trading.Float.{Float}
use qmt_trading.Backtest.Exits.Rows.{MinuteRow}
use qmt_trading.Backtest.Context.{Context}
use qmt_trading.Backtest.Context.Dates.{prefix-between}
use qmt_trading.Backtest.Context.Triggers.{
  Request, Diagnostic, query_of, find_minute_amount_triggers,
}
use qmt_trading.Data.Triggers.{Trigger, in_dates, day_of, replay_minute_amount_triggers}
use qmt_trading.Data.Triggers.Sound.{
  IsEarned, is_high, dated, wanted, replay_minute_amount_triggers-IsEarned,
}

All-at : {A : Type 0} (P : A → Type 0) {a : A} (xs : List A) → All P xs → Memᴰ a xs → P a
All-at P [] h d = elim d [ ]
All-at P (x ∷ xs) h (Memᴰ.head e) = rw e h.0
All-at P (x ∷ xs) h (Memᴰ.tail m) = All-at P xs h.1 m

kept : {A : Type 0} (p : A → Bool) {a : A} (xs : List A) → Mem a (keep p xs) → p a ≡ true
kept p {a} xs m =
    ∥∥₁_elim m (Bool-set (p a) true)
      (λ d. All-at (λ x. p x ≡ true) (keep p xs) (All-keep (λ x. p x ≡ true) p xs (λ x e. e)) d)

prefix-append : (n : ℕ) (s t : Text) → length s ≡ n → prefix n (s ++ t) ≡ s
prefix-append zero [] t e = refl
prefix-append (suc n) [] t e = absurd (ground arith)
prefix-append zero (c ∷ s) t e = absurd (ground arith)
prefix-append (suc n) (c ∷ s) t e = ap (λ u. c ∷ u) (prefix-append n s t (omega (arith, e)))

module _ {R : Type 0} ⦃F : Float R⦄ where
  dated-day :
      (c : Context R) (request : Request R) (r : MinuteRow R)
      → length c.current_date ≡ 10
      → in_dates (query_of c request) r ≡ true
      → day_of r ≡ c.current_date
  unfolding in_dates
  dated-day c request r ten e =
      let (low, high) = &&-eq-true _ _ e in
      let first = prefix-append 10 c.current_date (codes " 00:00:00") ten in
      let last = prefix-append 10 c.current_date (codes " 23:59:59") ten in
      prefix-between 10 (c.current_date ++ codes " 00:00:00") r.datetime
        (c.current_date ++ codes " 23:59:59") low high (first ∙ sym last)
      ∙ first

  earned-day :
      (c : Context R) (request : Request R) (table : List (MinuteRow R)) (t : Trigger R)
      → length c.current_date ≡ 10
      → IsEarned
          (is_high (query_of c request) table)
          (dated (query_of c request) table)
          (wanted (query_of c request) table)
          t
      → t.trade_date ≡ c.current_date
  earned-day c request table t ten (r, m, same, run) =
      ap (λ (u : Trigger R). u.trade_date) same
      ∙ dated-day c request r ten (kept (in_dates (query_of c request)) table m)

  -- The scan of a strategy reports triggers of the current day only, whatever table it reads; the
  -- condition is a date of ten characters.
  pub find_minute_amount_triggers-current :
      (dumps : Diagnostic R → Text) (table : List (MinuteRow R)) (request : Request R)
      (c : Context R)
      → length c.current_date ≡ 10
      → All
          (λ t. t.trade_date ≡ c.current_date)
          (find_minute_amount_triggers dumps table request c).0
  unfolding find_minute_amount_triggers
  find_minute_amount_triggers-current dumps table request c ten =
      All-imp _ _ (replay_minute_amount_triggers (query_of c request) table request.symbols).found
        (λ t h. earned-day c request table t ten h)
        (replay_minute_amount_triggers-IsEarned (query_of c request) table request.symbols)
