-- ===== src/Trading/Repository/Signals.antt =====
-- TradingRepository on strategy_signal and signal_order, and the order states that signal_order follows.
use qmt_trading.Base.{
  ℕ, Bool, not, ◌&&◌, ◌||◌, Option, none, some, List, ◌∷◌, map, ◌==◌, if◌then◌else◌, find_first,
  any_of,
}
use qmt_trading.Text.{Text, text_eq}
use qmt_trading.Trading.Status.{OrderStatus, failed}
use qmt_trading.Trading.Tables.{
  Store, Order, SignalRow, SignalStatus, unhandled, ordered, ignored, SignalOrder, linked, follows,
}
use qmt_trading.Trading.Monad.{
  Action, integrity, key_error, bad_value, Result, ok, raise, gets, or_throw, transaction, modify,
  ◌>>=◌, ◌>>◌,
}
use qmt_trading.Trading.Repository.Orders.{
  is_unhandled, same_key, or_old, get_order, insert_order, write_order,
}

abbrev pub new_link : ℕ → Text → Text → SignalOrder
new_link signal_id id now = record {
  signal_id = signal_id;
  local_order_id = id;
  status = linked;
  created_at = now;
}

abbrev pub link_clash : SignalOrder → SignalOrder → Bool
link_clash a b = a.signal_id == b.signal_id || text_eq a.local_order_id b.local_order_id

abbrev pub follow_order : Text → OrderStatus → SignalOrder → SignalOrder
follow_order id status l =
    if text_eq l.local_order_id id then record l { status = follows status } else l

-- ON CONFLICT(signal_id) DO UPDATE, which may break UNIQUE(local_order_id).
abbrev pub relink : SignalOrder → SignalOrder → SignalOrder
relink new old =
    if new.signal_id == old.signal_id
    then record old { local_order_id = new.local_order_id; status = new.status }
    else old

abbrev pub relinked : ℕ → Text → Text → List SignalOrder → List SignalOrder
relinked signal_id id now links =
    if any_of (λ (l : SignalOrder). l.signal_id == signal_id) links
    then map (relink (new_link signal_id id now)) links
    else new_link signal_id id now ∷ links

abbrev pub fail_link : ℕ → Text → SignalOrder → SignalOrder
fail_link signal_id id l =
    if l.signal_id == signal_id && text_eq l.local_order_id id
    then record l { status = follows failed }
    else l

module _ {R : Type 0} where
  -- strategy_signal JOIN strategy_file: a signal whose strategy file is gone has no row.
  abbrev joined : ℕ → List ℕ → SignalRow R → Bool
  joined id strategy_files r = r.id == id && any_of (λ n. n == r.strategy_id) strategy_files

  unfoldable pub get_signal : ℕ → Action R (SignalRow R)
  get_signal id = do
    row ← gets (λ (s : Store R). find_first (joined id s.strategy_files) s.signals)
    or_throw key_error row

  -- INSERT INTO signal_order.
  unfoldable pub insert_link : SignalOrder → Store R → Result (Store R)
  insert_link row s =
      if any_of (λ b. link_clash row b) s.signal_orders
      then raise integrity
      else ok (record s { signal_orders = row ∷ s.signal_orders })

  abbrev pub set_signal : ℕ → SignalStatus → Option Text → SignalRow R → SignalRow R
  set_signal id status order_id r =
      if r.id == id then record r { status = status; order_id = order_id } else r

  -- UPDATE strategy_signal SET status='已下单', order_id=? WHERE id=? AND status='未处理'.
  abbrev pub mark_ordered : ℕ → Text → SignalRow R → SignalRow R
  mark_ordered id order_id r =
      if is_unhandled r.status then set_signal id ordered (some order_id) r else r

  abbrev pub marked : ℕ → Text → Result (Store R) → Result (Unit {0} × Store R)
  marked signal_id id (raise x) = raise x
  marked signal_id id (ok s) =
      ok (tt, record s { signals = map (mark_ordered signal_id id) s.signals })

  -- The transaction of `create_signal_order`, from its second insertion on.
  unfoldable pub link_and_mark : Order R → ℕ → Text → Store R → Result (Unit {0} × Store R)
  unfolding insert_link
  link_and_mark row signal_id now s =
      marked signal_id row.local_order_id
        (insert_link (new_link signal_id row.local_order_id now) s)

  abbrev pub linked_order : Order R → ℕ → Text → Result (Store R) → Result (Unit {0} × Store R)
  linked_order row signal_id now (raise x) = raise x
  linked_order row signal_id now (ok s) = link_and_mark row signal_id now s

  unfoldable pub order_if_open :
      Order R → ℕ → Text → Store R → Option (SignalRow R) → Result (Unit {0} × Store R)
  unfolding insert_order
  order_if_open row signal_id now s none = raise key_error
  order_if_open row signal_id now s (some signal) =
      if is_unhandled signal.status
      then linked_order row signal_id now (insert_order row s)
      else raise bad_value

  unfoldable pub signal_order_transaction :
      Order R → ℕ → Text → Store R → Result (Unit {0} × Store R)
  unfolding order_if_open
  signal_order_transaction row signal_id now s =
      order_if_open row signal_id now s
        (find_first (λ (r : SignalRow R). r.id == signal_id) s.signals)

  unfoldable pub create_signal_order : Order R → ℕ → Text → Action R (Order R)
  unfolding signal_order_transaction get_order
  create_signal_order row signal_id now =
      transaction (signal_order_transaction row signal_id now) >> get_order row.local_order_id

  unfoldable pub with_status : OrderStatus → Option Text → Option ℕ → Text → Order R → Order R
  with_status status qmt_status filled now o = record o {
    status = status;
    qmt_status = or_old qmt_status o.qmt_status;
    filled_quantity = elim filled [ none ↦ o.filled_quantity | some q ↦ q ];
    updated_at = now;
  }

  abbrev pub followed : Text → OrderStatus → Result (Store R) → Result (Unit {0} × Store R)
  followed id status (raise x) = raise x
  followed id status (ok s) =
      ok (tt, record s { signal_orders = map (follow_order id status) s.signal_orders })

  unfoldable pub status_transaction :
      Text → OrderStatus → Option Text → Option ℕ → Text → Store R → Result (Unit {0} × Store R)
  unfolding write_order with_status
  status_transaction id status qmt_status filled now s =
      followed id status (write_order id (with_status status qmt_status filled now) s)

  unfoldable pub update_order_status :
      Text → OrderStatus → Option Text → Option ℕ → Text → Action R (Order R)
  unfolding status_transaction get_order
  update_order_status id status qmt_status filled now =
      transaction (status_transaction id status qmt_status filled now) >> get_order id

  abbrev pub taken_by_other : ℕ → Text → Store R → Bool
  taken_by_other signal_id id s =
      any_of (λ (l : SignalOrder). not (l.signal_id == signal_id) && text_eq l.local_order_id id)
        s.signal_orders

  unfoldable pub relink_transaction : ℕ → Text → Text → Store R → Result (Unit {0} × Store R)
  relink_transaction signal_id id now s =
      if taken_by_other signal_id id s
      then raise integrity
      else ok (
        tt,
        record s {
          signals = map (set_signal signal_id ordered (some id)) s.signals;
          signal_orders = relinked signal_id id now s.signal_orders;
        },
      )

  unfoldable pub update_signal_ordered : ℕ → Text → Text → Action R (Unit {0})
  unfolding relink_transaction
  update_signal_ordered signal_id id now = transaction (relink_transaction signal_id id now)

  abbrev pub reopen : ℕ → Text → SignalRow R → SignalRow R
  reopen signal_id id r =
      if r.id == signal_id && same_key r.order_id (some id)
      then record r { status = unhandled }
      else r

  unfoldable pub mark_signal_order_failed : ℕ → Text → Store R → Store R
  mark_signal_order_failed signal_id id s = record s {
    signal_orders = map (fail_link signal_id id) s.signal_orders;
    signals = map (reopen signal_id id) s.signals;
  }

  abbrev ignore_row : ℕ → SignalRow R → SignalRow R
  ignore_row id r = if r.id == id && is_unhandled r.status then record r { status = ignored } else r

  unfoldable pub ignore_signal : ℕ → Action R (SignalRow R)
  unfolding get_signal
  ignore_signal id =
      modify (λ s. record s { signals = map (ignore_row id) s.signals }) >> get_signal id
