-- ===== src/Trading/Holdings.antt =====
-- What a trade does to the tables: `upsert_trade_and_apply_effect` and
-- `_apply_position_and_account_snapshot`.
pub mod Bounds
use qmt_trading.Base.{
  ℕ, ◌+◌, ◌-◌, Bool, true, false, not, ◌&&◌, Option, none, some, List, [], ◌∷◌, map, ltb, ◌==◌,
  if◌then◌else◌, any_of, keep,
}
use qmt_trading.Text.{Text, codes, text_eq, is_empty}
use qmt_trading.Float.{Float, lit, zero_f, of_ℕ, add, sub, mul, div, round, nonzero}
use qmt_trading.Trading.Status.{all_filled}
use qmt_trading.Trading.Tables.{Store, Order, TradeRow, PositionRow, AccountRow}
use qmt_trading.Trading.Monad.{Result, ok, raise, Action, transaction}
use qmt_trading.Trading.Repository.{newest, write_order, follow_order}

abbrev pub is_buy : Text → Bool
is_buy side = text_eq side (codes "BUY")

abbrev pub max_of : ℕ → ℕ → ℕ
max_of a b = if ltb a b then b else a

module _ {R : Type 0} where
  unfoldable pub position_of : Text → Text → Store R → Option (PositionRow R)
  unfolding newest
  position_of account symbol s =
      newest (λ (p : PositionRow R). p.snapshot_time)
        (keep (λ (p : PositionRow R). text_eq p.account_id account && text_eq p.symbol symbol)
          s.positions)

  unfoldable pub account_of : Text → Store R → Option (AccountRow R)
  unfolding newest
  account_of account s =
      newest (λ (a : AccountRow R). a.snapshot_time)
        (keep (λ (a : AccountRow R). text_eq a.account_id account) s.accounts)

  -- The unique index on account, symbol and time: a second row of one moment replaces the first.
  abbrev same_moment : PositionRow R → PositionRow R → Bool
  same_moment a b =
      text_eq a.account_id b.account_id
      && text_eq a.symbol b.symbol
      && text_eq a.snapshot_time b.snapshot_time

  unfoldable pub upsert_position : PositionRow R → List (PositionRow R) → List (PositionRow R)
  upsert_position row rows =
      if any_of (same_moment row) rows
      then map (λ r. if same_moment row r then row else r) rows
      else row ∷ rows

module _ {R : Type 0} ⦃F : Float R⦄ where
  abbrev pub held : Option (PositionRow R) → ℕ
  held none = 0
  held (some p) = p.quantity

  abbrev pub free : Option (PositionRow R) → ℕ
  free none = 0
  free (some p) = p.available_quantity

  abbrev cost_or : R → Option (PositionRow R) → R
  cost_or price none = price
  cost_or price (some p) = p.cost_price

  abbrev last_or : R → Option (PositionRow R) → R
  last_or price none = price
  last_or price (some p) = p.last_price

  abbrev market_or_zero : Option (PositionRow R) → R
  market_or_zero none = zero_f
  market_or_zero (some p) = p.market_value

  -- `max(old - quantity, 0)` in a sale: the integer difference, or zero where it is negative.
  abbrev new_quantity : TradeRow R → Option (PositionRow R) → ℕ
  new_quantity t old =
      if is_buy t.side
      then held old + t.quantity
      else if ltb (held old) t.quantity
      then 0
      else held old - t.quantity

  abbrev new_available : TradeRow R → Option (PositionRow R) → ℕ
  new_available t old =
      if is_buy t.side
      then free old
      else if ltb (free old) t.quantity
      then 0
      else free old - t.quantity

  abbrev new_cost : TradeRow R → Option (PositionRow R) → R
  new_cost t old =
      let n = new_quantity t old in
      if is_buy t.side
      then (if n == 0
          then t.price
          else div (add (add (mul (cost_or t.price old) (of_ℕ (held old))) t.amount) t.fee)
              (of_ℕ n))
      else (if n == 0 then t.price else cost_or t.price old)

  unfoldable pub next_position : TradeRow R → Text → Option (PositionRow R) → PositionRow R
  next_position t now old =
      let n = new_quantity t old in
      let cost = new_cost t old in
      let last = if nonzero t.price then t.price else last_or t.price old in
      record {
        account_id = t.account_id;
        symbol = t.symbol;
        name = t.name;
        quantity = n;
        available_quantity = new_available t old;
        cost_price = round 4 cost;
        last_price = last;
        market_value = round 2 (mul (of_ℕ n) last);
        pnl = round 2 (mul (sub last cost) (of_ℕ n));
        pnl_ratio =
            if nonzero cost then round 4 (mul (div (sub last cost) cost) (lit 100 0)) else zero_f;
        snapshot_time = now;
      }

  unfoldable pub next_account :
      TradeRow R → Text → Option (PositionRow R) → R → AccountRow R → AccountRow R
  next_account t now old new_market a =
      let delta = if is_buy t.side then sub zero_f (add t.amount t.fee) else sub t.amount t.fee in
      let cash = round 2 (add a.available_cash delta) in
      let market = round 2 (add (sub a.market_value (market_or_zero old)) new_market) in
      record {
        account_id = t.account_id;
        total_asset = round 2 (add (add cash a.frozen_cash) market);
        available_cash = cash;
        frozen_cash = a.frozen_cash;
        market_value = market;
        today_pnl = a.today_pnl;
        snapshot_time = now;
      }

  unfoldable pub apply_snapshots : TradeRow R → Text → Store R → Store R
  unfolding position_of account_of upsert_position next_position next_account
  apply_snapshots t now s =
      let old = position_of t.account_id t.symbol s in
      let row = next_position t now old in
      let accounts : List (AccountRow R) = elim (account_of t.account_id s) [
        | none ↦ s.accounts
        | some a ↦ next_account t now old row.market_value a ∷ s.accounts
      ] in
      record s { positions = upsert_position row s.positions; accounts = accounts }

  abbrev pub fill_order : TradeRow R → Text → Order R → Order R
  fill_order t now o = record o {
    status = all_filled;
    qmt_status = elim o.qmt_status [ none ↦ some (codes "filled") | some w ↦ some w ];
    filled_quantity = max_of o.filled_quantity t.quantity;
    updated_at = now;
  }

  abbrev pub knows_trade : TradeRow R → Store R → Bool
  knows_trade t s = any_of (λ (u : TradeRow R). text_eq u.trade_id t.trade_id) s.trades

  -- What follows the update of the order: the links of its signal, the position and the account.
  unfoldable pub after_fill : TradeRow R → Text → Result (Store R) → Result (Bool × Store R)
  unfolding apply_snapshots
  after_fill t now (raise x) = raise x
  after_fill t now (ok s) =
      let links =
        if is_empty t.local_order_id
        then s.signal_orders
        else map (follow_order t.local_order_id all_filled) s.signal_orders in
      ok (true, apply_snapshots t now (record s { signal_orders = links }))

  -- `if local_order_id:`, the update of the order, or no update.
  abbrev pub order_filled : TradeRow R → Text → Store R → Result (Store R)
  order_filled t now s =
      if is_empty t.local_order_id then ok s else write_order t.local_order_id (fill_order t now) s

  unfoldable pub trade_transaction : TradeRow R → Text → Store R → Result (Bool × Store R)
  unfolding write_order after_fill
  trade_transaction t now s =
      if knows_trade t s
      then ok (false, s)
      else after_fill t now (order_filled t now (record s { trades = t ∷ s.trades }))

  unfoldable pub upsert_trade_and_apply_effect : TradeRow R → Text → Action R Bool
  unfolding trade_transaction
  upsert_trade_and_apply_effect t now = transaction (trade_transaction t now)
