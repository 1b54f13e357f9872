-- ===== src/Trading/Service.antt =====
-- TradingService (backend/services/trading_center/trading_service.py): orders by hand and from
-- signals, ignoring a signal, and cancelling. Its checks stand in Service/Checks.antt.
pub mod Checks
pub mod Duplicate
use qmt_trading.Base.{
  ℕ, Bool, true, false, not, ◌||◌, ◌==◌, Option, none, some, List, [], ◌∷◌, ◌++◌, if◌then◌else◌,
}
use qmt_trading.Text.{Text, codes, strip, upper, is_empty, text_eq}
use qmt_trading.Float.{Float, nonzero}
use qmt_trading.Value.{show_ℕ}
use qmt_trading.Trading.Status.{OrderStatus, unsubmitted, failed, is_active}
use qmt_trading.Trading.Tables.{
  Store, Order, Source, manual, from_signal, SignalRow, AccountRow, PositionRow, LogRow,
  OperationRow,
}
use qmt_trading.Trading.Monad.{
  Action, Failure, Result, ok, raise, return, throw, gets, or_throw, throw_if, catch, modify, ◌>>=◌,
  ◌>>◌, integrity, bad_value, key_error, order_duplicated, submit_failed, cancel_failed,
  not_cancelable, signal_not_found, order_not_found, signal_not_orderable,
}
use qmt_trading.Trading.Adapter.{Adapter, Reply, place_order}
use qmt_trading.Trading.Adapter
use qmt_trading.Trading.Repository.{
  is_unhandled, get_order, get_signal, find_order_by_idempotency, find_active_signal_order,
  create_order, create_signal_order, update_order_submit, update_order_status,
  update_signal_ordered, mark_signal_order_failed, add_log,
}
use qmt_trading.Trading.Repository
use qmt_trading.Trading.Service.Checks.{
  Service, ensure_submit_allowed, require_account, stock_name, quantity_from_amount, validate_order,
  validate_buy_sell_capacity, idempotency_key,
}

pub record ManualOrderRequest (R : Type 0) : Type 0 where
  pub symbol : Text
  pub name : Option Text
  pub side : Text
  pub price : R
  pub quantity : ℕ

pub record SignalOrderRequest (R : Type 0) : Type 0 where
  pub price : Option R
  pub quantity : Option ℕ

pub record OrderSubmitResult (R : Type 0) : Type 0 where
  pub order : Order R
  pub duplicate : Bool

-- What the insertion ended with: a new order, or one that was there.
pub data Creation (R : Type 0) : Type 0 where
  created found : Order R → Creation R

abbrev or_else {ℓ} : {A : Type ℓ} → Option A → A → A
or_else none a = a
or_else (some b) a = b

-- `text or default`
abbrev filled : Option Text → Text → Text
filled none t = t
filled (some s) t = if is_empty s then t else s

-- `number or default`, where the default may raise.
abbrev pub number_or : {R : Type 0} → Option ℕ → Action R ℕ → Action R ℕ
number_or none m = m
number_or (some n) m = if n == 0 then m else return n

-- `if x: return ...x...`, and what follows.
abbrev pub choose : {R A B : Type 0} → Option A → (A → Action R B) → Action R B → Action R B
choose none f m = m
choose (some a) f m = f a

module _ {R : Type 0} where
  abbrev pub lift : {A : Type 0} → Result A → Action R A
  lift r s = (r, s)

  abbrev pub log : Option Text → Text → Text → Action R (Unit {0})
  log id level message = modify (add_log id level message)

  abbrev pub operation : Text → Text → Bool → Action R (Unit {0})
  operation action target success = modify λ s. record s {
    operations = record { action = action; target_id = target; success = success } ∷ s.operations;
  }

  -- `try: m / except: handler; raise TradingError(x)`
  abbrev pub on_failure : {A : Type 0} → Action R (Unit {0}) → Failure → Action R A → Action R A
  on_failure handler x m = catch m (λ _. handler >> throw x)

  abbrev pub renamed : {A : Type 0} → Failure → Failure → Action R A
  renamed x key_error = throw x
  renamed x y = throw y

  abbrev pub signal_or_error : ℕ → Action R (SignalRow R)
  signal_or_error id = catch (get_signal id) (renamed signal_not_found)

  abbrev pub order_or_error : Text → Action R (Order R)
  order_or_error id = catch (get_order id) (renamed order_not_found)

  abbrev pub create_row : Order R → Option ℕ → Text → Action R (Order R)
  create_row row none now = create_order row
  create_row row (some id) now = create_signal_order row id now

  abbrev signal_order_of : Option ℕ → Store R → Option (Order R)
  signal_order_of none s = none
  signal_order_of (some id) s = find_active_signal_order id s

  -- The `except (sqlite3.IntegrityError, ValueError)` branch.
  abbrev pub found_order : Text → Option ℕ → Action R (Creation R)
  found_order key signal_id = do
    duplicate ← gets (find_order_by_idempotency key)
    existing ← gets (signal_order_of signal_id)
    choose duplicate (λ o. return (found o))
        (do o ← or_throw order_duplicated existing; return (found o))

  abbrev pub on_refused : Text → Option ℕ → Failure → Action R (Creation R)
  on_refused key signal_id integrity = found_order key signal_id
  on_refused key signal_id bad_value = found_order key signal_id
  on_refused key signal_id x = throw x

  abbrev pub fail_signal : Option ℕ → Text → Action R (Unit {0})
  fail_signal none id = return tt
  fail_signal (some n) id = modify (mark_signal_order_failed n id)

module _ {R : Type 0} ⦃F : Float R⦄ where
  abbrev pub sent : Service R → Text → Action R (Order R)
  sent v id = do
    result ← lift (place_order v.adapter v.fresh_qmt)
    updated ←
        update_order_submit id result.qmt_order_id result.status (some result.qmt_status) v.now
    log (some id) (codes "info") (codes "委托已提交到测试隔离交易适配器。")
    return updated

  abbrev pub submit_handler : Service R → Text → Option ℕ → Action R (Unit {0})
  submit_handler v id signal_id = do
    _ ← update_order_status id failed none none v.now
    fail_signal signal_id id
    log (some id) (codes "error") (codes "委托提交失败。")
    operation (codes "提交委托") id false

  abbrev pub submit_created : Service R → Option ℕ → Action R (Order R)
  submit_created v signal_id = do
    log (some v.fresh_order) (codes "info") (codes "已创建本地订单，准备提交测试隔离交易适配器。")
    on_failure (submit_handler v v.fresh_order signal_id) submit_failed (sent v v.fresh_order)

  abbrev pub unless_found : Service R → Option ℕ → Creation R → Action R (Order R)
  unless_found v signal_id (found o) = return o
  unless_found v signal_id (created o) = submit_created v signal_id

  unfoldable pub create_and_submit_order :
      Service R → Order R → Text → Option ℕ → Action R (Order R)
  unfolding create_order create_signal_order find_order_by_idempotency find_active_signal_order
      add_log place_order update_order_submit update_order_status mark_signal_order_failed
  create_and_submit_order v row key signal_id = do
    made ←
        catch (do o ← create_row row signal_id v.now; return (created o)) (on_refused key signal_id)
    unless_found v signal_id made

  -- The row that `_create_and_submit_order` builds.
  abbrev pub order_row :
      Service R
      → AccountRow R
      → Text
      → Text
      → Text
      → R
      → ℕ
      → Source
      → Option ℕ
      → Option ℕ
      → Text
      → Order R
  order_row v account symbol name side price quantity source strategy_id signal_id key = record {
    local_order_id = v.fresh_order;
    qmt_order_id = none;
    account_id = account.account_id;
    symbol = symbol;
    name = name;
    side = side;
    price = price;
    quantity = quantity;
    filled_quantity = 0;
    status = unsubmitted;
    qmt_status = none;
    source = source;
    strategy_id = strategy_id;
    signal_id = signal_id;
    idempotency_key = some key;
    order_time = v.now;
    updated_at = v.now;
  }

  abbrev result_of : Bool → Order R → OrderSubmitResult R
  result_of duplicate o = record { order = o; duplicate = duplicate }

  abbrev pub submit_manual_new :
      Service R → ManualOrderRequest R → AccountRow R → Text → Action R (OrderSubmitResult R)
  submit_manual_new v q account key = do
    let symbol = upper (strip q.symbol)
    let name = filled q.name (stock_name v symbol)
    let row =
        order_row v account symbol name (upper (strip q.side)) q.price q.quantity manual none none
          key
    order ← create_and_submit_order v row key none
    operation (codes "手动下单") order.local_order_id true
    return (result_of false order)

  unfoldable pub submit_manual_order :
      Service R → ManualOrderRequest R → Action R (OrderSubmitResult R)
  unfolding ensure_submit_allowed validate_order require_account validate_buy_sell_capacity
      idempotency_key find_order_by_idempotency create_and_submit_order strip
  submit_manual_order v q = do
    ensure_submit_allowed v
    let symbol = upper (strip q.symbol)
    let side = upper (strip q.side)
    validate_order v symbol side q.price q.quantity
    account ← require_account v
    validate_buy_sell_capacity v account.available_cash symbol side q.price q.quantity
    let key = idempotency_key v account.account_id symbol side q.price q.quantity manual none
    duplicate ← gets (find_order_by_idempotency key)
    choose duplicate (λ o. return (result_of true o)) (submit_manual_new v q account key)

  abbrev pub signal_order :
      Service R → SignalRow R → AccountRow R → R → ℕ → Text → Action R (OrderSubmitResult R)
  signal_order v signal account price quantity key = do
    let name = if is_empty signal.name then stock_name v signal.symbol else signal.name
    let row =
        order_row v account signal.symbol name signal.action price quantity from_signal
          (some signal.strategy_id) (some signal.id) key
    order ← create_and_submit_order v row key (some signal.id)
    operation (codes "信号下单") (show_ℕ signal.id) true
    return (result_of false order)

  abbrev pub submit_unhandled :
      Service R → SignalRow R → SignalOrderRequest R → Action R (OrderSubmitResult R)
  submit_unhandled v signal q = do
    account ← require_account v
    let asked = or_else q.price signal.price
    let price = if nonzero asked then asked else signal.price
    quantity ← number_or q.quantity (quantity_from_amount v signal.amount price)
    validate_order v signal.symbol signal.action price quantity
    validate_buy_sell_capacity v account.available_cash signal.symbol signal.action price quantity
    let key =
        idempotency_key v account.account_id signal.symbol signal.action price quantity from_signal
          (some signal.id)
    duplicate ← gets (find_order_by_idempotency key)
    choose duplicate
        (λ o. update_signal_ordered signal.id o.local_order_id v.now >> return (result_of true o))
        (signal_order v signal account price quantity key)

  unfoldable pub submit_signal_order :
      Service R → ℕ → SignalOrderRequest R → Action R (OrderSubmitResult R)
  unfolding ensure_submit_allowed get_signal find_active_signal_order validate_order require_account
      validate_buy_sell_capacity quantity_from_amount idempotency_key find_order_by_idempotency
      update_signal_ordered create_and_submit_order
  submit_signal_order v signal_id q = do
    ensure_submit_allowed v
    signal ← signal_or_error signal_id
    existing ← gets (find_active_signal_order signal_id)
    choose existing (λ o. return (result_of true o))
        (throw_if (not (is_unhandled signal.status)) signal_not_orderable
          >> submit_unhandled v signal q)

  unfoldable pub ignore_signal : ℕ → Action R (SignalRow R)
  unfolding Repository.ignore_signal get_signal add_log
  ignore_signal id = do
    _ ← signal_or_error id
    signal ← Repository.ignore_signal id
    log none (codes "info") (codes "已忽略策略信号：" ++ signal.symbol ++ codes " " ++ signal.action)
    operation (codes "忽略信号") (show_ℕ id) true
    return signal

  abbrev pub cancelled_order : Service R → Text → Action R (Order R)
  cancelled_order v id = do
    result ← lift (Adapter.cancel_order v.adapter)
    updated ← update_order_status id result.status (some result.qmt_status) none v.now
    log (some id) (codes "info") (codes "撤单成功。")
    operation (codes "撤单") id true
    return updated

  abbrev pub cancel_handler : Service R → Text → Action R (Unit {0})
  cancel_handler v id = do
    _ ← update_order_status id failed none none v.now
    log (some id) (codes "error") (codes "撤单失败。")
    operation (codes "撤单") id false

  unfoldable pub cancel_order : Service R → Text → Action R (Order R)
  unfolding ensure_submit_allowed get_order Adapter.cancel_order update_order_status add_log
  cancel_order v id = do
    ensure_submit_allowed v
    order ← order_or_error id
    throw_if (not (is_active order.status)) not_cancelable
    on_failure (cancel_handler v id) cancel_failed (cancelled_order v id)
