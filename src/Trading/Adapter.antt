-- ===== src/Trading/Adapter.antt =====
-- The two trading adapters (backend/adapters/qmt/qmt_trade_adapter.py): the test adapter, which never
-- reaches QMT, and the disabled real one, whose every call raises.
use qmt_trading.Base.{Option, none, some, ◌++◌, if◌then◌else◌}
use qmt_trading.Text.{Text, codes, is_empty}
use qmt_trading.Float.{Float, lit, of_ℕ, mul, round}
use qmt_trading.Trading.Status.{
  OrderStatus, unsubmitted, submitted, reported, all_filled, map_order_status, word,
}
use qmt_trading.Trading.Tables.{Order, TradeRow}
use qmt_trading.Trading.Monad.{Result, ok, raise, adapter_blocked}

pub data Adapter : Type 0 where
  test_isolation disabled_real : Adapter

-- What a call returns: the state, QMT's word for it, and QMT's number where one is given.
pub record Reply : Type 0 where
  pub status : OrderStatus
  pub qmt_status : Text
  pub qmt_order_id : Option Text

abbrev reply : Text → Option Text → Reply
reply qmt_status id = record {
  status = map_order_status (some qmt_status);
  qmt_status = qmt_status;
  qmt_order_id = id;
}

-- `fresh` stands for the random part of the QMT number.
unfoldable pub place_order : Adapter → Text → Result Reply
place_order disabled_real fresh = raise adapter_blocked
place_order test_isolation fresh = ok (reply (codes "accepted") (some (codes "qmt_test_" ++ fresh)))

unfoldable pub cancel_order : Adapter → Result Reply
cancel_order disabled_real = raise adapter_blocked
cancel_order test_isolation = ok (reply (codes "cancelled") none)

abbrev or_word : Option Text → Text → Text
or_word none t = t
or_word (some s) t = if is_empty s then t else s

module _ {R : Type 0} where
  abbrev sync_word : Order R → Text
  sync_word o = elim o.status [
    | submitted ↦ codes "filled"
    | reported ↦ codes "filled"
    | unsubmitted ↦ codes "filled"
    | _ ↦ or_word o.qmt_status (word o.status)
  ]

  unfoldable pub sync_order_status : Adapter → Order R → Result Reply
  unfolding word
  sync_order_status disabled_real o = raise adapter_blocked
  sync_order_status test_isolation o = ok (reply (sync_word o) none)

module _ {R : Type 0} ⦃F : Float R⦄ where
  abbrev test_trade : Text → Order R → TradeRow R
  test_trade now o = record {
    trade_id = codes "trade_test_" ++ o.local_order_id;
    local_order_id = o.local_order_id;
    qmt_order_id = o.qmt_order_id;
    account_id = o.account_id;
    symbol = o.symbol;
    name = o.name;
    side = o.side;
    price = o.price;
    quantity = o.quantity;
    amount = round 2 (mul o.price (of_ℕ o.quantity));
    fee = round 2 (mul (mul o.price (of_ℕ o.quantity)) (lit 3 4));
    source = o.source;
    trade_time = now;
  }

  unfoldable pub build_test_isolation_trade :
      Adapter → Text → Order R → Result (Option (TradeRow R))
  build_test_isolation_trade disabled_real now o = raise adapter_blocked
  build_test_isolation_trade test_isolation now o = elim o.status [
    | all_filled ↦ ok (some (test_trade now o))
    | _ ↦ ok none
  ]
