-- ===== src/Trading/Repository/Queries.antt =====
-- TradingRepository on trades, positions, accounts and the execution log.
use qmt_trading.Base.{
  Bool, true, ◌&&◌, Option, none, some, List, [], ◌∷◌, if◌then◌else◌, any_of, take, keep,
}
use qmt_trading.Text.{Text, text_eq, text_lt}
use qmt_trading.Trading.Tables.{Store, Order, TradeRow, PositionRow, AccountRow}

abbrev of_account : Option Text → Text → Bool
of_account none id = true
of_account (some account) id = text_eq account id

-- ORDER BY snapshot_time DESC, id DESC LIMIT 1.
unfoldable pub newest {ℓ} : {A : Type ℓ} → (A → Text) → List A → Option A
newest time [] = none
newest time (x ∷ xs) = elim (newest time xs) [
  | none ↦ some x
  | some y ↦ some (if text_lt (time x) (time y) then y else x)
]

module _ {R : Type 0} where
  unfoldable pub has_trade_for_order : Text → Store R → Bool
  has_trade_for_order id s = any_of (λ (t : TradeRow R). text_eq t.local_order_id id) s.trades

  unfoldable pub add_log : Option Text → Text → Text → Store R → Store R
  add_log id level message s = record s {
    logs = record { local_order_id = id; level = level; message = message } ∷ s.logs;
  }

  unfoldable pub all_orders_for_sync : Option Text → Store R → List (Order R)
  all_orders_for_sync account s =
      take 200 (keep (λ (o : Order R). of_account account o.account_id) s.orders)

  unfoldable pub get_position : Text → Option Text → Store R → Option (PositionRow R)
  unfolding newest
  get_position symbol account s =
      newest (λ (p : PositionRow R). p.snapshot_time)
        (keep (λ (p : PositionRow R). text_eq p.symbol symbol && of_account account p.account_id)
          s.positions)

  unfoldable pub latest_account : Option Text → Store R → Option (AccountRow R)
  unfolding newest
  latest_account account s =
      newest (λ (a : AccountRow R). a.snapshot_time)
        (keep (λ (a : AccountRow R). of_account account a.account_id) s.accounts)
