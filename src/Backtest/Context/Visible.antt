-- ===== src/Backtest/Context/Visible.antt =====
-- Which bars a strategy sees.
use qmt_trading.Base.{
  All-imp, ◌≡◌, refl, ap, ◌∙◌, inl, inr, Bool, true, false, ◌&&◌, Option, none, some, List, [], ◌∷◌,
  ◌++◌, map, All, keep, last?, if◌then◌else◌, Bool-cases, arith,
}
use qmt_trading.Text.{Text, text_lt, text_le, text_eq, is_empty}
use qmt_trading.Text.Order.{text_lt_asymm, text_le_trans}
use qmt_trading.Dict.{Dict, get_or, get_or-cases, lookup}
use qmt_trading.Backtest.Types.{MarketBar, minute_frequency}
use qmt_trading.Backtest.Exits.Rows.{sorted_set}
use qmt_trading.Backtest.Context.{
  Context, no_day, text_min, or_given, all_dates, visible_daily_end_date, last_or_none, end_by,
  from_start, get_daily_bars,
}
use qmt_trading.Backtest.Context.Dates.{last-sorted_set, sorted_set-none}

text_le_min : (d a b : Text) → text_le d (text_min a b) ≡ (text_le d a && text_le d b)
text_le_min d a b = elim (Bool-cases (text_lt b a)) [
  | inl k ↦ rw k (elim (Bool-cases (text_lt b d)) [
    | inl m ↦ rw m (ground arith)
    | inr m ↦
        let below : text_lt a d ≡ false = text_le_trans d b a m (text_lt_asymm b a k) in
        rw (m, below) refl
  ])
  | inr k ↦ rw k (elim (Bool-cases (text_lt a d)) [
    | inl m ↦ rw m refl
    | inr m ↦ let below : text_lt b d ≡ false = text_le_trans d a b m k in rw (m, below) refl
  ])
]

keep_same :
    {A : Type 0} (p q : A → Bool) (xs : List A) → All (λ x. p x ≡ q x) xs → keep p xs ≡ keep q xs
keep_same p q [] h = refl
keep_same p q (x ∷ xs) h = rw (h.0, keep_same p q xs h.1) refl

All-of-keep :
    (P : Text → Type 0) (p : Text → Bool) (ds : List Text)
    → All P (keep p ds)
    → All (λ d. p d ≡ true → P d) ds
All-of-keep P p [] h = tt
All-of-keep P p (d ∷ ds) h = elim (Bool-cases (p d)) [
  | inl e ↦ let h' : All P (d ∷ keep p ds) = rw e at h in ((λ k. h'.0), All-of-keep P p ds h'.1)
  | inr e ↦
      let h' : All P (keep p ds) = rw e at h in
      ((λ k. absurd (ground (arith, k, e))), All-of-keep P p ds h')
]

keep-true : (p : Text → Bool) (ds : List Text) → All (λ d. p d ≡ true) (keep p ds)
keep-true p [] = tt
keep-true p (d ∷ ds) = elim (Bool-cases (p d)) [
  | inl e ↦ rw e (e, keep-true p ds)
  | inr e ↦ rw e (keep-true p ds)
]

All-map :
    {A B : Type 0} (P : B → Type 0) (f : A → B) (xs : List A)
    → All P (map f xs)
    → All (λ x. P (f x)) xs
All-map P f [] h = tt
All-map P f (x ∷ xs) h = (h.0, All-map P f xs h.1)

All-left : {A : Type 0} (P : A → Type 0) (xs ys : List A) → All P (xs ++ ys) → All P xs × All P ys
All-left P [] ys h = (tt, h)
All-left P (x ∷ xs) ys h = let (l, r) = All-left P xs ys h.1 in ((h.0, l), r)

abbrev pub up_to : Option Text → Text → Bool
up_to none date = true
up_to (some end) date = if is_empty end then true else text_le date end

-- A date that is not before the day is after the fallback.
no_day-early :
    (d current : Text)
    → text_lt no_day current ≡ true
    → text_lt d current ≡ false
    → text_le d no_day ≡ text_lt d current
no_day-early d current late h = elim (Bool-cases (text_lt no_day d)) [
  | inl k ↦ rw (k, h) refl
  | inr k ↦
      let no : text_lt no_day current ≡ false = text_le_trans current d no_day h k in
      absurd (ground (arith, no, late))
]

-- A date is up to the last day before the day just when it is before it.
last-early :
    (d m current : Text)
    → text_lt m current ≡ true
    → (text_lt d current ≡ true → text_lt m d ≡ false)
    → text_le d m ≡ text_lt d current
last-early d m current before top = elim (Bool-cases (text_lt d current)) [
  | inl k ↦ rw (k, top k) refl
  | inr k ↦ elim (Bool-cases (text_lt m d)) [
    | inl l ↦ rw (k, l) refl
    | inr l ↦
        let no : text_lt m current ≡ false = text_le_trans current d m k l in
        absurd (ground (arith, no, before))
  ]
]

All-any : (P : Text → Type 0) (ds : List Text) → ((d : Text) → P d) → All P ds
All-any P [] f = tt
All-any P (d ∷ ds) f = (f d, All-any P ds f)

module _ {R : Type 0} where
  lookup-All :
      (P : Text → Type 0) (symbol : Text) (bars : Dict (List (MarketBar R)))
      (bs : List (MarketBar R))
      → All P (all_dates bars)
      → lookup symbol bars ≡ some bs
      → All (λ (b : MarketBar R). P b.trade_date) bs
  unfolding lookup
  lookup-All P symbol [] bs h e = absurd (ground arith)
  lookup-All P symbol ((s, cs) ∷ rest) bs h e =
      let (l, r) = All-left P (map (λ (b : MarketBar R). b.trade_date) cs) (all_dates rest) h in
      elim (Bool-cases (text_eq s symbol)) [
        | inl k ↦
            let same : cs ≡ bs = ground (arith, rw k at e) in
            rw (← same) (All-map P (λ (b : MarketBar R). b.trade_date) cs l)
        | inr k ↦ lookup-All P symbol rest bs r (rw k at e)
      ]

  -- What holds of all dates holds of the dates of a symbol's bars.
  All-bars :
      (P : Text → Type 0) (symbol : Text) (bars : Dict (List (MarketBar R)))
      → All P (all_dates bars)
      → All (λ (b : MarketBar R). P b.trade_date) (get_or symbol [] bars)
  All-bars P symbol bars h =
      get_or-cases (All (λ (b : MarketBar R). P b.trade_date)) symbol [] bars tt
        (λ bs e. lookup-All P symbol bars bs h e)

  abbrev pub past_by : Bool → Context R → Text → Bool
  past_by false c date = text_le date c.current_date
  past_by true c date = text_lt date c.current_date

  -- The dates up to the day, and in a backtest on minutes the dates before it.
  abbrev pub is_past : Context R → Text → Bool
  is_past c date = past_by (text_eq c.data_frequency minute_frequency) c date

  abbrev pub is_visible : Context R → Option Text → Option Text → MarketBar R → Bool
  is_visible c start_date end_date b =
      from_start start_date b.trade_date && (up_to end_date b.trade_date && is_past c b.trade_date)

  last_end :
      (c : Context R) (o : Option Text)
      → last? (sorted_set (keep (λ d. text_lt d c.current_date) (all_dates c.bars_by_symbol))) ≡ o
      → text_lt no_day c.current_date ≡ true
      → All
          (λ d. text_le d (last_or_none c o).0 ≡ text_lt d c.current_date)
          (all_dates c.bars_by_symbol)
  last_end c none e late =
      All-imp _ _ (all_dates c.bars_by_symbol)
        (λ d h. no_day-early d c.current_date late (ground (arith, h)))
        (All-of-keep (λ d. true ≡ false) (λ d. text_lt d c.current_date)
          (all_dates c.bars_by_symbol) (sorted_set-none (λ d. true ≡ false) _ e))
  last_end c (some m) e late =
      let (before, top) =
        last-sorted_set (λ d. text_lt d c.current_date ≡ true) _ m e
          (keep-true (λ d. text_lt d c.current_date) (all_dates c.bars_by_symbol)) in
      All-imp _ _ (all_dates c.bars_by_symbol) (λ d h. last-early d m c.current_date before h)
        (All-of-keep (λ d. text_lt m d ≡ false) (λ d. text_lt d c.current_date)
          (all_dates c.bars_by_symbol) top)

  end_by-past_by :
      (minutes : Bool) (c : Context R)
      → text_lt no_day c.current_date ≡ true
      → All (λ d. text_le d (end_by minutes c).0 ≡ past_by minutes c d) (all_dates c.bars_by_symbol)
  end_by-past_by false c late =
      All-any (λ d. text_le d c.current_date ≡ text_le d c.current_date)
        (all_dates c.bars_by_symbol) (λ d. refl)
  end_by-past_by true c late = last_end c _ refl late

  end-is_past :
      (c : Context R)
      → text_lt no_day c.current_date ≡ true
      → All (λ d. text_le d (visible_daily_end_date c).0 ≡ is_past c d) (all_dates c.bars_by_symbol)
  unfolding visible_daily_end_date
  end-is_past c late = end_by-past_by (text_eq c.data_frequency minute_frequency) c late

  cut_off :
      (c : Context R) (end_date : Option Text) (visible d : Text)
      → text_le d visible ≡ is_past c d
      → text_le d (text_min (or_given end_date visible) visible) ≡ (up_to end_date d && is_past c d)
  cut_off c none visible d h = text_le_min d visible visible ∙ ground (arith, h)
  cut_off c (some []) visible d h = text_le_min d visible visible ∙ ground (arith, h)
  cut_off c (some (x ∷ end)) visible d h =
      text_le_min d (x ∷ end) visible ∙ ap (λ b. text_le d (x ∷ end) && b) h

  -- The daily bars that a strategy reads on a day are exactly the bars of the symbol in the range asked
  -- for whose date is up to the day, or before the day where the backtest runs on minutes; the condition
  -- is a day after 1900-01-01, the fallback of the code.
  pub get_daily_bars-is_visible :
      (c : Context R) (symbol : Text) (start_date end_date : Option Text)
      → text_lt no_day c.current_date ≡ true
      → (get_daily_bars symbol start_date end_date c).0
        ≡ keep (is_visible c start_date end_date) (get_or symbol [] c.bars_by_symbol)
  unfolding get_daily_bars
  get_daily_bars-is_visible c symbol start_date end_date late =
      let visible = (visible_daily_end_date c).0 in
      keep_same _ (is_visible c start_date end_date) (get_or symbol [] c.bars_by_symbol) (
        All-bars
          (λ d.
            (from_start start_date d && text_le d (text_min (or_given end_date visible) visible))
            ≡ (from_start start_date d && (up_to end_date d && is_past c d)))
          symbol c.bars_by_symbol
          (All-imp _ _ (all_dates c.bars_by_symbol)
            (λ d h. ap (λ b. from_start start_date d && b) (cut_off c end_date visible d h))
            (end-is_past c late)))
