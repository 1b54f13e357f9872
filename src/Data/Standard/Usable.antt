-- ===== src/Data/Standard/Usable.antt =====
-- The rows that reach the tables.
use qmt_trading.Base.{
  ◌≡◌, refl, false, List, [], ◌∷◌, All, if◌then◌else◌, inl, inr, Bool-cases, arith,
}
use qmt_trading.Text.{Text, codes, is_empty}
use qmt_trading.Dict.{Dict}
use qmt_trading.Float.{Float, zero_f, le}
use qmt_trading.Value.{Value}
use qmt_trading.Data.Fields.{Formats, Result, ok, raise, value_error, ◌>>=◌, get, to_int}
use qmt_trading.Data.Standard.Kline.{
  Kline, MinuteKline, lowest, is_unusable, kept, kept_minute, flag_of, standardize_daily_kline,
  standardize_minute_kline,
}
use qmt_trading.Data.Standard.Accounts.{
  each, required_account_id, position, order_row, trade_row, standardize_positions,
  standardize_orders, standardize_trades,
}

-- What holds of the value, where there is one.
abbrev pub Ensures : {A : Type 0} → (A → Type 0) → Result A → Type 0
Ensures P (ok a) = P a
Ensures P (raise e) = Unit

bind-Ensures :
    {A B : Type 0} (P : A → Type 0) (Q : B → Type 0) (m : Result A) (f : A → Result B)
    → Ensures P m
    → ((a : A) → P a → Ensures Q (f a))
    → Ensures Q (m >>= f)
unfolding ◌>>=◌
bind-Ensures P Q (ok a) f h k = k a h
bind-Ensures P Q (raise e) f h k = tt

Ensures-any : {A : Type 0} (m : Result A) → Ensures (λ a. Unit {0}) m
Ensures-any (ok a) = tt
Ensures-any (raise e) = tt

skip :
    {A B : Type 0} (Q : B → Type 0) (m : Result A) (f : A → Result B)
    → ((a : A) → Ensures Q (f a))
    → Ensures Q (m >>= f)
skip Q m f k = bind-Ensures (λ a. Unit {0}) Q m f (Ensures-any m) (λ a u. k a)

each-Ensures :
    {A B : Type 0} (P : B → Type 0) (f : A → Result B) (rows : List A)
    → ((a : A) → Ensures P (f a))
    → Ensures (All P) (each f rows)
unfolding each
each-Ensures P f [] h = tt
each-Ensures P f (a ∷ rows) h =
    bind-Ensures P (All P) (f a) _ (h a) (λ b p.
      bind-Ensures (All P) (All P) (each f rows) _ (each-Ensures P f rows h) (λ bs q. (p, q)))

module _ {R : Type 0} ⦃F : Float R⦄ where
  -- A code, a time, and a lowest price above zero.
  pub record IsUsable (k : Kline R) : Type 0 where
    pub named : is_empty k.symbol ≡ false
    pub dated : is_empty k.time ≡ false
    pub positive : le (lowest k) zero_f ≡ false

  usable : (k : Kline R) → is_unusable k ≡ false → IsUsable k
  usable k h = record { named = ground arith; dated = ground arith; positive = ground arith }

  kept-IsUsable : (k : Kline R) (ks : List (Kline R)) → All IsUsable ks → All IsUsable (kept k ks)
  kept-IsUsable k ks h = elim (Bool-cases (is_unusable k)) [
    | inl e ↦ rw e h
    | inr e ↦ rw e (usable k e, h)
  ]

  kept_minute-IsUsable :
      (k : MinuteKline R) (ks : List (MinuteKline R))
      → All (λ m. IsUsable m.row) ks
      → All (λ m. IsUsable m.row) (kept_minute k ks)
  kept_minute-IsUsable k ks h = elim (Bool-cases (is_unusable k.row)) [
    | inl e ↦ rw e h
    | inr e ↦ rw e (usable k.row e, h)
  ]

  standardize_daily_kline-IsUsable :
      (formats : Formats) (rows : List (Dict (Value R)))
      → Ensures (All IsUsable) (standardize_daily_kline formats rows)
  unfolding standardize_daily_kline
  standardize_daily_kline-IsUsable formats [] = tt
  standardize_daily_kline-IsUsable formats (row ∷ rows) =
      skip (All IsUsable) (flag_of row) _ (λ flag.
        bind-Ensures (All IsUsable) (All IsUsable) (standardize_daily_kline formats rows) _
          (standardize_daily_kline-IsUsable formats rows) (λ ks h. kept-IsUsable _ ks h))

  standardize_minute_kline-IsUsable :
      (formats : Formats) (rows : List (Dict (Value R)))
      → Ensures (All (λ m. IsUsable m.row)) (standardize_minute_kline formats rows)
  unfolding standardize_minute_kline
  standardize_minute_kline-IsUsable formats [] = tt
  standardize_minute_kline-IsUsable formats (row ∷ rows) =
      skip (All (λ m. IsUsable m.row)) (flag_of row) _ (λ flag.
        bind-Ensures (All (λ m. IsUsable m.row)) (All (λ m. IsUsable m.row))
          (standardize_minute_kline formats rows) _ (standardize_minute_kline-IsUsable formats rows)
          (λ ks h. kept_minute-IsUsable _ ks h))

  -- Where the standardizations of daily and of minute rows return, each row that they give has a code, a
  -- date or a time, and a lowest price above zero.
  pub standardized-IsUsable :
      (formats : Formats) (daily minute : List (Dict (Value R)))
      → Ensures (All IsUsable) (standardize_daily_kline formats daily)
        × Ensures (All (λ m. IsUsable m.row)) (standardize_minute_kline formats minute)
  standardized-IsUsable formats daily minute = (
    standardize_daily_kline-IsUsable formats daily,
    standardize_minute_kline-IsUsable formats minute,
  )

  account-nonempty :
      (row : Dict (Value R)) → Ensures (λ id. is_empty id ≡ false) (required_account_id row)
  unfolding required_account_id
  account-nonempty row = or_raise _
    where
      or_raise :
          (id : Text)
          → Ensures (λ i. is_empty i ≡ false) (if is_empty id then raise value_error else ok id)
      or_raise [] = tt
      or_raise (c ∷ id) = refl

  position-HasAccount :
      (row : Dict (Value R)) → Ensures (λ p. is_empty p.account_id ≡ false) (position row)
  position-HasAccount row =
      bind-Ensures (λ id. is_empty id ≡ false) (λ p. is_empty p.account_id ≡ false)
        (required_account_id row) _ (account-nonempty row)
        (λ id h.
          skip _ (to_int (get (codes "quantity") row)) _
            (λ q. skip _ (to_int (get (codes "available_quantity") row)) _ (λ a. h)))

  order_row-HasAccount :
      (row : Dict (Value R)) → Ensures (λ o. is_empty o.account_id ≡ false) (order_row row)
  order_row-HasAccount row =
      bind-Ensures (λ id. is_empty id ≡ false) (λ o. is_empty o.account_id ≡ false)
        (required_account_id row) _ (account-nonempty row)
        (λ id h.
          skip _ (to_int (get (codes "quantity") row)) _
            (λ q. skip _ (to_int (get (codes "filled_quantity") row)) _ (λ a. h)))

  trade_row-HasAccount :
      (row : Dict (Value R)) → Ensures (λ t. is_empty t.account_id ≡ false) (trade_row row)
  trade_row-HasAccount row = skip _ (to_int (get (codes "quantity") row)) _ (λ q.
      bind-Ensures (λ id. is_empty id ≡ false) (λ t. is_empty t.account_id ≡ false)
        (required_account_id row) _ (account-nonempty row) (λ id h. h))

  -- Where the standardizations of positions, orders and trades return, each row that they give has an
  -- account.
  pub standardized-HasAccount :
      (rows : List (Dict (Value R)))
      → Ensures (All (λ p. is_empty p.account_id ≡ false)) (standardize_positions rows)
        × Ensures (All (λ o. is_empty o.account_id ≡ false)) (standardize_orders rows)
        × Ensures (All (λ t. is_empty t.account_id ≡ false)) (standardize_trades rows)
  unfolding standardize_positions standardize_orders standardize_trades
  standardized-HasAccount rows = (
    each-Ensures _ position rows position-HasAccount,
    each-Ensures _ order_row rows order_row-HasAccount,
    each-Ensures _ trade_row rows trade_row-HasAccount,
  )
