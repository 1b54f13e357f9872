-- ===== src/Data/Triggers/Sound.antt =====
-- What the pass over the minute rows reports.
use qmt_trading.Base.{
  ℕ, zero, suc, ◌+◌, ◌≤◌, ◌<◌, ◌≡◌, refl, sym, ◌∙◌, inl, inr, Bool, true, not, ◌&&◌, Option, none,
  some, List, [], ◌∷◌, All, All-append, All-take, All-sort_by, keep, arith, leb, leb→le, ==_iff,
  ◌==◌, Bool-cases, &&-eq-true,
}
use mathlib.Core.List.{Mem, mem-cons_self, mem-cons_of_mem}
use qmt_trading.Data.Symbols.{is_standard_symbol}
use qmt_trading.Text.{Text, text_eq}
use qmt_trading.Text.Order.{text_eq→eq}
use qmt_trading.Dict.{lookup, insert, lookup-insert}
use qmt_trading.Float.{Float, le}
use qmt_trading.Backtest.Exits.Rows.{MinuteRow}
use qmt_trading.Data.Triggers.{
  Query, Streak, Trigger, Scan, at_least_one, hit_count, minute_of, in_dates, query_rows,
  is_triggered, day_of, trigger_of, streak_after, triggers_after, on_row_by, on_row, is_full,
  scan_rows, scan_chunks, start, replay_clean, chunks_from, replay_minute_amount_triggers,
}

module _ {R : Type 0} (high : MinuteRow R → Bool) (table : List (MinuteRow R)) where
  -- For the last `count` minutes up to `minute` there is a row of the stock and the day in the table whose
  -- amount is high.
  abbrev pub HasRun : Text → Text → ℕ → ℕ → Type 0
  HasRun symbol date minute count =
      (k : ℕ)
      → k < count
      → (r : MinuteRow R) × Mem r table
        × (r.symbol ≡ symbol)
        × (day_of r ≡ date)
        × (minute_of r.datetime + k ≡ minute)
        × (high r ≡ true)

  abbrev pub IsEarned : ℕ → Trigger R → Type 0
  IsEarned minutes t =
      (r : MinuteRow R) × Mem r table
      × (t ≡ trigger_of r)
      × HasRun t.symbol t.trade_date (minute_of r.datetime) minutes

  pub record Sound (minutes : ℕ) (s : Scan R) : Type 0 where
    pub runs :
        (symbol : Text) (st : Streak)
        → lookup symbol s.streak_by_symbol ≡ some st
        → HasRun symbol st.trade_date st.minute_index st.count
    pub earned : All (IsEarned minutes) s.triggers

  first_row :
      (r : MinuteRow R)
      → Mem r table
      → high r ≡ true
      → HasRun r.symbol (day_of r) (minute_of r.datetime) 1
  first_row r m h zero l = (r, m, refl, refl, omega arith, h)
  first_row r m h (suc k) l = absurd (omega (arith, l))

  longer :
      (r : MinuteRow R) (minute count : ℕ)
      → Mem r table
      → high r ≡ true
      → minute + 1 ≡ minute_of r.datetime
      → HasRun r.symbol (day_of r) minute count
      → HasRun r.symbol (day_of r) (minute_of r.datetime) (count + 1)
  longer r minute count m h e run zero l = (r, m, refl, refl, omega arith, h)
  longer r minute count m h e run (suc k) l =
      let (q, mq, named, dated, at, big) = run k (omega (arith, l)) in
      (q, mq, named, dated, omega (arith, at, e), big)

  after_hit :
      (r : MinuteRow R) (o : Option Streak)
      → Mem r table
      → high r ≡ true
      → ((st : Streak) → o ≡ some st → HasRun r.symbol st.trade_date st.minute_index st.count)
      → HasRun r.symbol
          (day_of r)
          (minute_of r.datetime)
          (hit_count o (day_of r) (minute_of r.datetime))
  after_hit r none m h old = first_row r m h
  after_hit r (some st) m h old =
      elim (Bool-cases
        (text_eq st.trade_date (day_of r) && (st.minute_index + 1 == minute_of r.datetime))) [
          | inr e ↦ rw e (first_row r m h)
          | inl e ↦
              let (day, next) = &&-eq-true _ _ e in
              let run : HasRun r.symbol (day_of r) st.minute_index st.count =
                rw (← text_eq→eq _ _ day) (old st refl) in
              rw e (
                longer r st.minute_index st.count m h
                  ((==_iff (st.minute_index + 1) (minute_of r.datetime)).0 next) run)
        ]

  streak-HasRun :
      (minutes : ℕ) (r : MinuteRow R) (s : Scan R)
      → Mem r table
      → Sound minutes s
      → HasRun r.symbol (day_of r) (minute_of r.datetime) (streak_after (high r) s r).count
  streak-HasRun minutes r s m h = elim (Bool-cases (high r)) [
    | inr e ↦ rw e (λ k l. absurd (omega (arith, l)))
    | inl e ↦
        rw e (after_hit r (lookup r.symbol s.streak_by_symbol) m e (λ st k. h.runs r.symbol st k))
  ]

  after-HasRun :
      (minutes : ℕ) (r : MinuteRow R) (s : Scan R) (symbol : Text) (st : Streak)
      → Mem r table
      → Sound minutes s
      → lookup symbol (insert r.symbol (streak_after (high r) s r) s.streak_by_symbol) ≡ some st
      → HasRun symbol st.trade_date st.minute_index st.count
  after-HasRun minutes r s symbol st m h e =
      let e' =
        sym (lookup-insert r.symbol symbol (streak_after (high r) s r) s.streak_by_symbol) ∙ e in
      elim (Bool-cases (text_eq r.symbol symbol)) [
        | inr k ↦ h.runs symbol st (rw k at e')
        | inl k ↦
            let same : streak_after (high r) s r ≡ st = some_injective (rw k at e') in
            rw (← text_eq→eq _ _ k, ← same) (streak-HasRun minutes r s m h)
      ]
    where
      some_injective : {a b : Streak} → some a ≡ some b → a ≡ b
      some_injective p = ground (arith, p)

  shorter :
      (symbol date : Text) (minute few count : ℕ)
      → few ≤ count
      → HasRun symbol date minute count
      → HasRun symbol date minute few
  shorter symbol date minute few count h run k l = run k (omega (arith, l, h))

  triggers-IsEarned :
      (minutes : ℕ) (r : MinuteRow R) (s : Scan R) (count : ℕ)
      → Mem r table
      → HasRun r.symbol (day_of r) (minute_of r.datetime) count
      → All (IsEarned minutes) s.triggers
      → All (IsEarned minutes) (triggers_after minutes (high r) count s r)
  triggers-IsEarned minutes r s count m run h =
      elim (Bool-cases
        (high r && leb minutes count && not (is_triggered r.symbol (day_of r) s.triggers))) [
          | inr e ↦ rw e h
          | inl e ↦
              let enough : minutes ≤ count =
                leb→le minutes count (&&-eq-true _ _ (&&-eq-true _ _ e).0).1 in
              rw e (
                All-append (IsEarned minutes) s.triggers (trigger_of r ∷ []) h (
                  (
                    r,
                    m,
                    refl,
                    shorter r.symbol (day_of r) (minute_of r.datetime) minutes count enough run,
                  ),
                  tt,
                ))
        ]

  on_row_by-Sound :
      (minutes : ℕ) (r : MinuteRow R) (s : Scan R)
      → Mem r table
      → Sound minutes s
      → Sound minutes (on_row_by (high r) minutes r s)
  unfolding on_row_by
  on_row_by-Sound minutes r s m h = record {
    runs = λ symbol st e. after-HasRun minutes r s symbol st m h e;
    earned = triggers-IsEarned minutes r s _ m (streak-HasRun minutes r s m h) h.earned;
  }

-- What a filter lets through is in the list of a wider filter.
keep-Mem :
    {A : Type 0} (p wide : A → Bool) (xs ys : List A)
    → ((x : A) → p x ≡ true → wide x ≡ true)
    → ((x : A) → Mem x (keep wide xs) → Mem x ys)
    → All (λ x. Mem x ys) (keep p xs)
keep-Mem p wide [] ys w f = tt
keep-Mem p wide (x ∷ xs) ys w f = elim (Bool-cases (wide x)) [
  | inl k ↦
      let here : Mem x ys = f x (rw k mem-cons_self) in
      let rest = keep-Mem p wide xs ys w (λ z m. f z (rw k (mem-cons_of_mem x m))) in
      elim (Bool-cases (p x)) [ inl e ↦ rw e (here, rest) | inr e ↦ rw e rest ]
  | inr k ↦ elim (Bool-cases (p x)) [
    | inl e ↦ absurd (ground (arith, w x e))
    | inr e ↦ rw e (keep-Mem p wide xs ys w (λ z m. f z (rw k m)))
  ]
]

module _ {R : Type 0} ⦃F : Float R⦄ (q : Query R) (table : List (MinuteRow R)) where
  abbrev pub is_high : MinuteRow R → Bool
  is_high r = le q.min_amount r.amount

  abbrev pub wanted : ℕ
  wanted = at_least_one 60 q.consecutive_minutes

  -- The rows of the table in the dates of the query.
  abbrev pub dated : List (MinuteRow R)
  dated = keep (in_dates q) table

  query_rows-Mem : (chunk : List Text) → All (λ r. Mem r dated) (query_rows q chunk table)
  unfolding query_rows
  query_rows-Mem chunk = All-sort_by _ _ _ (
      keep-Mem _ (in_dates q) table dated
        (λ r h. (&&-eq-true _ _ (&&-eq-true _ _ (&&-eq-true _ _ h).0).0).1) (λ r m. m))

  scan_rows-Sound :
      (rows : List (MinuteRow R)) (s : Scan R)
      → All (λ r. Mem r dated) rows
      → Sound is_high dated wanted s
      → Sound is_high dated wanted (scan_rows q rows s)
  unfolding scan_rows
  scan_rows-Sound [] s m h = h
  scan_rows-Sound (r ∷ rows) s m h =
      let after = on_row_by-Sound is_high dated wanted r s m.0 h in
      elim (Bool-cases (is_full q (on_row q r s))) [
        | inl e ↦ rw e after
        | inr e ↦ rw e (scan_rows-Sound rows (on_row q r s) m.1 after)
      ]

  fresh-Sound :
      (s : Scan R)
      → Sound is_high dated wanted s
      → Sound is_high dated wanted (record s { streak_by_symbol = [] })
  unfolding lookup
  fresh-Sound s h = record { runs = λ symbol st e. absurd (ground (arith, e)); earned = h.earned }

  scan_chunks-Sound :
      (chunks : List (List Text)) (s : Scan R)
      → Sound is_high dated wanted s
      → Sound is_high dated wanted (scan_chunks q table chunks s)
  unfolding scan_chunks
  scan_chunks-Sound [] s h = h
  scan_chunks-Sound (chunk ∷ chunks) s h =
      let begin = record s { streak_by_symbol = [] } in
      let after =
        scan_rows-Sound (query_rows q chunk table) begin (query_rows-Mem chunk) (fresh-Sound s h) in
      elim (Bool-cases (is_full q (scan_rows q (query_rows q chunk table) begin))) [
        | inl e ↦ rw e after
        | inr e ↦ rw e (scan_chunks-Sound chunks _ after)
      ]

  start-Sound : Sound is_high dated wanted start
  unfolding lookup
  start-Sound = record { runs = λ symbol st e. absurd (ground (arith, e)); earned = tt }

  -- Each trigger that the replay reports is earned: it is the time, the price and the amount of a row of
  -- the table in the dates of the query, and for as many minutes in a row as are wanted, up to that row's
  -- minute, there is such a row of the stock and the day whose amount reaches the bound.
  pub replay_minute_amount_triggers-IsEarned :
      (symbols : List Text)
      → All (IsEarned is_high dated wanted) (replay_minute_amount_triggers q table symbols).found
  unfolding replay_minute_amount_triggers
  replay_minute_amount_triggers-IsEarned symbols = from (keep is_standard_symbol symbols)
    where
      from :
          (clean : List Text)
          → All (IsEarned is_high dated wanted) (replay_clean q table clean).found
      from [] = tt
      from (c ∷ clean) = All-take _ _ _ (
          All-sort_by _ _ _
            (scan_chunks-Sound (chunks_from (c ∷ clean) []) start start-Sound).earned)
