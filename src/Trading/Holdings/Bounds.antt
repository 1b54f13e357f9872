-- ===== src/Trading/Holdings/Bounds.antt =====
-- The counts of a position after a trade, and a trade that comes twice.
use qmt_trading.Base.{
  ℕ, ◌+◌, ◌-◌, min, ltb, if◌then◌else◌, ◌≤◌, ◌≡◌, refl, inl, inr, Bool, true, false, Option, none,
  some, ◌∷◌, arith, Bool-cases,
}
use qmt_trading.Text.{Text, is_empty}
use qmt_trading.Text.Order.{text_eq_refl}
use qmt_trading.Float.{Float}
use qmt_trading.Trading.Tables.{Store, TradeRow, PositionRow}
use qmt_trading.Trading.Monad.{Result, ok, raise, Failure, transaction, commit}
use qmt_trading.Trading.Keeping.{transaction-ok}
use qmt_trading.Trading.Repository.{write_order, breaks_index}
use qmt_trading.Trading.Holdings.{
  is_buy, next_position, trade_transaction, upsert_trade_and_apply_effect, knows_trade, after_fill,
  apply_snapshots, fill_order, order_filled, held, free,
}

sold_clamped : (n count : ℕ) → (if ltb count n then 0 else count - n) + min n count ≡ count
sold_clamped n count = ground arith

module _ {R : Type 0} where
  -- A position whose sellable part is a part of it.
  abbrev pub IsWithin : PositionRow R → Type 0
  IsWithin p = p.available_quantity ≤ p.quantity

raise_ok : {A : Type 0} {x : Failure} {a : A} → raise x ≡ ok a → ⊥
raise_ok p = cc

module _ {R : Type 0} ⦃F : Float R⦄ where
  unfoldable pub WithinOption : Option (PositionRow R) → Type 0
  WithinOption none = Unit {0}
  WithinOption (some p) = IsWithin p

  free-le-held : (old : Option (PositionRow R)) → WithinOption old → free old ≤ held old
  unfolding WithinOption
  free-le-held none h = omega arith
  free-le-held (some p) h = h

  -- The shares that a trade adds to a position, and the shares that it takes from a count.
  abbrev pub shares_bought : TradeRow R → ℕ
  shares_bought t = if is_buy t.side then t.quantity else 0

  abbrev pub shares_sold : TradeRow R → ℕ → ℕ
  shares_sold t count = if is_buy t.side then 0 else min t.quantity count

  -- A position after a trade: a buy adds its shares to the count and none of them to the sellable
  -- shares, and a sale takes its quantity from each of the two counts, or all of the count where that
  -- is less. Where the sellable shares of the old position, if there is one, are at most its shares,
  -- the new position has this property too.
  pub next_position-counts :
      (t : TradeRow R)
      → (now : Text) → (old : Option (PositionRow R)) → WithinOption old
      → ((next_position t now old).quantity + shares_sold t (held old) ≡ held old + shares_bought t)
        × ((next_position t now old).available_quantity + shares_sold t (free old) ≡ free old)
        × IsWithin (next_position t now old)
  unfolding next_position
  next_position-counts t now old h =
      let k = free-le-held old h in
      elim (Bool-cases (is_buy t.side)) [
        | inl e ↦ rw e (omega arith, omega arith, omega arith)
        | inr e ↦ rw e (
          ground (arith, sold_clamped t.quantity (held old)),
          sold_clamped t.quantity (free old),
          ground arith,
        )
      ]

  -- What a call of the transaction leaves knows the trade.
  Known : TradeRow R → Result (Bool × Store R) → Type 0
  Known t (ok (b, s)) = knows_trade t s ≡ true
  Known t (raise x) = Unit {0}

  after_fill-Known :
      (t : TradeRow R)
      → (now : Text) → (s : Store R)
      → Known t (after_fill t now (order_filled t now (record s { trades = t ∷ s.trades })))
  unfolding after_fill apply_snapshots write_order Known
  after_fill-Known t now s = elim (Bool-cases (is_empty t.local_order_id)) [
    | inl e ↦ rw e (rw (text_eq_refl t.trade_id) refl)
    | inr e ↦
        elim (Bool-cases (breaks_index t.local_order_id (fill_order t now) s.orders s.orders)) [
          | inl k ↦ rw (e, k) tt
          | inr k ↦ rw (e, k) (rw (text_eq_refl t.trade_id) refl)
        ]
  ]

  trade_transaction-Known :
      (t : TradeRow R) → (now : Text) → (s : Store R) → Known t (trade_transaction t now s)
  unfolding trade_transaction Known
  trade_transaction-Known t now s = elim (Bool-cases (knows_trade t s)) [
    | inl e ↦ rw e e
    | inr e ↦ rw e (after_fill-Known t now s)
  ]

  known_again :
      (t : TradeRow R)
      → (later : Text) → (s : Store R) → knows_trade t s ≡ true
      → trade_transaction t later s ≡ ok (false, s)
  unfolding trade_transaction
  known_again t later s h = rw h refl

  repeat :
      (t : TradeRow R)
      → (later : Text) → (s : Store R) → knows_trade t s ≡ true
      → upsert_trade_and_apply_effect t later s ≡ (ok false, s)
  unfolding upsert_trade_and_apply_effect
  repeat t later s h =
      transaction-ok (trade_transaction t later) s s false (known_again t later s h)

  commit-Known :
      (t : TradeRow R)
      → (r : Result (Bool × Store R)) → (s : Store R) → (b : Bool) → Known t r
      → (commit s r).0 ≡ ok b
      → knows_trade t (commit s r).1 ≡ true
  unfolding Known
  commit-Known t (ok (a, s')) s b k e = k
  commit-Known t (raise x) s b k e = absurd (raise_ok e)

  -- A trade counts once: after a call that returned, a second call with the trade returns false and
  -- changes nothing.
  pub upsert_trade_twice :
      (t : TradeRow R)
      → (now later : Text) → (s : Store R) → (b : Bool)
      → (upsert_trade_and_apply_effect t now s).0 ≡ ok b
      → upsert_trade_and_apply_effect t later (upsert_trade_and_apply_effect t now s).1
        ≡ (ok false, (upsert_trade_and_apply_effect t now s).1)
  unfolding upsert_trade_and_apply_effect transaction
  upsert_trade_twice t now later s b h =
      repeat t later _
        (commit-Known t (trade_transaction t now s) s b (trade_transaction-Known t now s) h)
