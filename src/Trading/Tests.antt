-- ===== src/Trading/Tests.antt =====
-- The theorems on trading at concrete tables: one account, one position, and orders made from them.
use qmt_trading.Base.{
  ℕ, ◌+◌, ◌*◌, ◌==◌, arith, ◌≡◌, refl, Bool, true, false, Option, none, some, [], ◌∷◌, find_first,
}
use qmt_trading.Base.Int.{pos}
use qmt_trading.Text.{Text, codes}
use qmt_trading.Float.Fixed.{Fixed, units, fixed_float}
use qmt_trading.Trading.Status.{
  OrderStatus, map_order_status, word, all_filled, reported, part_filled,
}
use qmt_trading.Trading.Status.Words.{map_order_status-word}
use qmt_trading.Trading.Tables.{
  Store, AccountRow, Order, manual, TradeRow, PositionRow, SignalRow, SignalStatus, unhandled,
  ordered, linked,
}
use qmt_trading.Trading.Monad.{Result, ok, raise, Failure, real_trading_not_enabled}
use qmt_trading.Trading.Adapter.{test_isolation}
use qmt_trading.Trading.Repository.{
  find_order_by_idempotency, find_active_signal_order, latest_account, create_signal_order,
  mark_signal_order_failed,
}
use qmt_trading.Trading.Holdings.{held, free, next_position, upsert_trade_and_apply_effect}
use qmt_trading.Trading.Holdings.Bounds.{
  IsWithin, shares_sold, shares_bought, next_position-counts, upsert_trade_twice, WithinOption,
}
use qmt_trading.Trading.Service.{ManualOrderRequest}
use qmt_trading.Trading.Service.Checks.{Service}
use qmt_trading.Trading.Service.Duplicate.{manual_key}
use qmt_trading.Trading.Unique.Linked.{
  has_link, create_signal_order-linked, mark_signal_order_failed-linked,
}

abbrev yuan : ℕ → Fixed
yuan n = units (pos (n * 10000))

abbrev service : Bool → Service Fixed
service simulation_mode = record {
  config = record {
    simulation_mode = simulation_mode;
    account_id = codes "8001";
    max_order_amount = yuan 50000;
    default_order_amount = yuan 10000;
  };
  adapter = test_isolation;
  fresh_order = codes "order_b";
  fresh_qmt = codes "1";
  now = codes "2024-01-03 10:00:00";
  minute = 28401720;
  sha256 = λ t. t;
  stock = λ t. none;
  quote = λ t. none;
}

abbrev order : Text → OrderStatus → Order Fixed
order id status = record {
  local_order_id = id;
  qmt_order_id = none;
  account_id = codes "test_isolation_account";
  symbol = codes "600000.SH";
  name = codes "bank";
  side = codes "BUY";
  price = yuan 10;
  quantity = 100;
  filled_quantity = 0;
  status = status;
  qmt_status = none;
  source = manual;
  strategy_id = none;
  signal_id = none;
  idempotency_key = some id;
  order_time = codes "2024-01-03 09:59:00";
  updated_at = codes "2024-01-03 09:59:00";
}

abbrev signal : ℕ → SignalStatus → Option Text → SignalRow Fixed
signal id status order_id = record {
  id = id;
  strategy_id = 1;
  symbol = codes "600000.SH";
  name = codes "bank";
  action = codes "BUY";
  price = yuan 10;
  amount = none;
  status = status;
  order_id = order_id;
}

abbrev account : AccountRow Fixed
account = record {
  account_id = codes "test_isolation_account";
  total_asset = yuan 100000;
  available_cash = yuan 100000;
  frozen_cash = yuan 0;
  market_value = yuan 0;
  today_pnl = yuan 0;
  snapshot_time = codes "2024-01-03 09:00:00";
}

abbrev store : Store Fixed
store = record {
  orders = order (codes "order_a") reported ∷ order (codes "order_z") all_filled ∷ [];
  strategy_files = 1 ∷ [];
  signals = signal 8 unhandled none ∷ signal 7 ordered (some (codes "order_a")) ∷ [];
  signal_orders =
      record {
        signal_id = 7;
        local_order_id = codes "order_a";
        status = linked;
        created_at = codes "2024-01-03 09:59:00";
      }
      ∷ [];
  trades = [];
  positions = [];
  accounts = account ∷ [];
  logs = [];
  operations = [];
}

abbrev request : ManualOrderRequest Fixed
request = record {
  symbol = codes "600000.sh ";
  name = none;
  side = codes "buy";
  price = yuan 10;
  quantity = 200;
}

-- The order that the request made, and the tables with it.
abbrev first_copy : Order Fixed
first_copy = record (order (codes "order_a") reported) {
  idempotency_key = some (manual_key (service true) request account);
}

abbrev with_first : Store Fixed
with_first = record store { orders = first_copy ∷ [] }

abbrev signal_copy : Order Fixed
signal_copy = record (order (codes "order_a") reported) { signal_id = some 7 }

abbrev with_signal_order : Store Fixed
with_signal_order = record store { orders = signal_copy ∷ [] }

has_link_7 : has_link 7 store.signal_orders ≡ true
unfolding has_link
has_link_7 = refl

create_signal_order-linked_example :
    (x : Failure) × (create_signal_order
        (order (codes "order_b") reported)
        7
        (codes "2024-01-03 10:00:00")
        store
      ≡ (raise x, store))
create_signal_order-linked_example =
    create_signal_order-linked (order (codes "order_b") reported) 7 (codes "2024-01-03 10:00:00")
      store has_link_7

mark_signal_order_failed-linked_example :
    let after = mark_signal_order_failed 7 (codes "order_a") store in
    (find_first (λ (q : SignalRow Fixed). q.id == 7) after.signals
      ≡ some (record (signal 7 ordered (some (codes "order_a"))) { status = unhandled }))
    × (x : Failure) × (create_signal_order
          (order (codes "order_b") reported)
          7
          (codes "2024-01-03 10:00:00")
          after
        ≡ (raise x, after))
unfolding qmt_trading.Text.text_eq
mark_signal_order_failed-linked_example =
    mark_signal_order_failed-linked (order (codes "order_b") reported) 7 (codes "order_a")
      (codes "2024-01-03 10:00:00") store (signal 7 ordered (some (codes "order_a"))) refl refl
      has_link_7

abbrev trade : TradeRow Fixed
trade = record {
  trade_id = codes "trade_test_order_z";
  local_order_id = codes "order_z";
  qmt_order_id = none;
  account_id = codes "test_isolation_account";
  symbol = codes "600000.SH";
  name = codes "bank";
  side = codes "SELL";
  price = yuan 10;
  quantity = 100;
  amount = yuan 1000;
  fee = yuan 1;
  source = manual;
  trade_time = codes "2024-01-03 10:00:00";
}

abbrev holding : PositionRow Fixed
holding = record {
  account_id = codes "test_isolation_account";
  symbol = codes "600000.SH";
  name = codes "bank";
  quantity = 300;
  available_quantity = 200;
  cost_price = yuan 9;
  last_price = yuan 10;
  market_value = yuan 3000;
  pnl = yuan 300;
  pnl_ratio = yuan 11;
  snapshot_time = codes "2024-01-02 15:00:00";
}

within : WithinOption (some holding)
unfolding WithinOption
within = omega arith

abbrev sold_100 : PositionRow Fixed
sold_100 = next_position trade (codes "2024-01-03 10:00:00") (some holding)

next_position-counts_example :
    (sold_100.quantity + shares_sold trade (held (some holding))
      ≡ held (some holding) + shares_bought trade)
    × (sold_100.available_quantity + shares_sold trade (free (some holding)) ≡ free (some holding))
    × IsWithin sold_100
next_position-counts_example =
    next_position-counts trade (codes "2024-01-03 10:00:00") (some holding) within

written : (upsert_trade_and_apply_effect trade (codes "2024-01-03 10:00:00") store).0 ≡ ok true
unfolding qmt_trading.Trading.Holdings.position_of qmt_trading.Trading.Holdings.account_of
    qmt_trading.Trading.Holdings.upsert_position qmt_trading.Trading.Holdings.next_position
    qmt_trading.Trading.Holdings.next_account qmt_trading.Trading.Holdings.apply_snapshots
    qmt_trading.Trading.Holdings.after_fill qmt_trading.Trading.Holdings.trade_transaction
    qmt_trading.Trading.Holdings.upsert_trade_and_apply_effect
    qmt_trading.Trading.Repository.find_order qmt_trading.Trading.Repository.get_order
    qmt_trading.Trading.Repository.find_order_by_idempotency
    qmt_trading.Trading.Repository.find_active_signal_order
    qmt_trading.Trading.Repository.insert_order qmt_trading.Trading.Repository.create_order
    qmt_trading.Trading.Repository.update_order qmt_trading.Trading.Repository.breaks_index
    qmt_trading.Trading.Repository.write_order qmt_trading.Trading.Repository.update_order_submit
    qmt_trading.Trading.Repository.get_signal qmt_trading.Trading.Repository.insert_link
    qmt_trading.Trading.Repository.link_and_mark qmt_trading.Trading.Repository.order_if_open
    qmt_trading.Trading.Repository.signal_order_transaction
    qmt_trading.Trading.Repository.create_signal_order qmt_trading.Trading.Repository.with_status
    qmt_trading.Trading.Repository.status_transaction
    qmt_trading.Trading.Repository.update_order_status
    qmt_trading.Trading.Repository.relink_transaction
    qmt_trading.Trading.Repository.update_signal_ordered
    qmt_trading.Trading.Repository.mark_signal_order_failed
    qmt_trading.Trading.Repository.ignore_signal qmt_trading.Trading.Repository.newest
    qmt_trading.Trading.Repository.has_trade_for_order qmt_trading.Trading.Repository.add_log
    qmt_trading.Trading.Repository.all_orders_for_sync qmt_trading.Trading.Repository.get_position
    qmt_trading.Trading.Repository.latest_account qmt_trading.Trading.Monad.transaction
    qmt_trading.Trading.Monad.catch qmt_trading.Trading.Monad.◌>>=◌ qmt_trading.Text.text_eq
    qmt_trading.Text.text_lt qmt_trading.Text.starts_with qmt_trading.Text.contains
    qmt_trading.Text.is_digit qmt_trading.Text.is_space qmt_trading.Text.all_digits
    qmt_trading.Text.lstrip qmt_trading.Text.strip qmt_trading.Text.upper qmt_trading.Text.lower
written = refl

upsert_trade_twice_example :
    upsert_trade_and_apply_effect trade
      (codes "2024-01-03 10:01:00")
      (upsert_trade_and_apply_effect trade (codes "2024-01-03 10:00:00") store).1
    ≡ (ok false, (upsert_trade_and_apply_effect trade (codes "2024-01-03 10:00:00") store).1)
upsert_trade_twice_example =
    upsert_trade_twice trade (codes "2024-01-03 10:00:00") (codes "2024-01-03 10:01:00") store true
      written

map_order_status-word_example : map_order_status (some (word part_filled)) ≡ part_filled
map_order_status-word_example = map_order_status-word part_filled
