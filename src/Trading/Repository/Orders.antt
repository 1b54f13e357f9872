-- ===== src/Trading/Repository/Orders.antt =====
-- TradingRepository on order_record: its queries and transactions. The unique indexes of the table are
-- part of the database (backend/core/database.py): a write that breaks one raises IntegrityError, and
-- the transaction changes nothing.
use qmt_trading.Base.{
  ℕ, Bool, true, false, not, ◌&&◌, ◌||◌, Option, none, some, List, [], ◌∷◌, ◌==◌, if◌then◌else◌,
  find_first, any_of,
}
use qmt_trading.Text.{Text, text_eq}
use qmt_trading.Trading.Status.{OrderStatus, is_active, is_live}
use qmt_trading.Trading.Tables.{Store, Order, SignalStatus, unhandled}
use qmt_trading.Trading.Monad.{
  Action, integrity, key_error, Result, ok, raise, gets, or_throw, transaction, ◌>>=◌, ◌>>◌,
}

abbrev same_number : Option ℕ → ℕ → Bool
same_number none n = false
same_number (some m) n = m == n

abbrev pub same_key : Option Text → Option Text → Bool
same_key none k = false
same_key (some j) none = false
same_key (some j) (some k) = text_eq j k

abbrev pub is_unhandled : SignalStatus → Bool
is_unhandled unhandled = true
is_unhandled _ = false

abbrev pub or_old {ℓ} : {A : Type ℓ} → Option A → Option A → Option A
or_old none old = old
or_old (some a) old = some a

module _ {R : Type 0} where
  abbrev pub is_order : Text → Order R → Bool
  is_order id o = text_eq o.local_order_id id

  unfoldable pub find_order : Text → Store R → Option (Order R)
  find_order id s = find_first (is_order id) s.orders

  unfoldable pub get_order : Text → Action R (Order R)
  unfolding find_order
  get_order id = do o ← gets (find_order id); or_throw key_error o

  unfoldable pub find_order_by_idempotency : Text → Store R → Option (Order R)
  find_order_by_idempotency key s =
      find_first (λ (o : Order R). same_key o.idempotency_key (some key) && is_active o.status)
        s.orders

  unfoldable pub find_active_signal_order : ℕ → Store R → Option (Order R)
  find_active_signal_order id s =
      find_first (λ (o : Order R). same_number o.signal_id id && is_live o.status) s.orders

  -- Whether two orders may not stand in the table together: UNIQUE(local_order_id), and the partial
  -- index idx_order_record_active_idempotency.
  abbrev pub clash : Order R → Order R → Bool
  clash a b =
      text_eq a.local_order_id b.local_order_id
      || is_active a.status && is_active b.status && same_key a.idempotency_key b.idempotency_key

  unfoldable pub insert_order : Order R → Store R → Result (Store R)
  insert_order row s =
      if any_of (clash row) s.orders
      then raise integrity
      else ok (record s { orders = row ∷ s.orders })

  abbrev pub only_store : Result (Store R) → Result (Unit {0} × Store R)
  only_store (ok s) = ok (tt, s)
  only_store (raise x) = raise x

  unfoldable pub create_order : Order R → Action R (Order R)
  unfolding insert_order get_order
  create_order row =
      transaction (λ s. only_store (insert_order row s)) >> get_order row.local_order_id

  -- UPDATE order_record ... WHERE local_order_id=?, under the unique indexes: the row that changes may
  -- not clash with another.
  unfoldable pub update_order : Text → (Order R → Order R) → List (Order R) → List (Order R)
  update_order id f [] = []
  update_order id f (o ∷ os) = (if is_order id o then f o else o) ∷ update_order id f os

  -- `others` are the rows that do not change.
  abbrev pub hits : Text → Order R → List (Order R) → Bool
  hits id new others = any_of (λ p. not (is_order id p) && clash new p) others

  unfoldable pub breaks_index : Text → (Order R → Order R) → List (Order R) → List (Order R) → Bool
  breaks_index id f [] others = false
  breaks_index id f (o ∷ os) others =
      is_order id o && hits id (f o) others || breaks_index id f os others

  unfoldable pub write_order : Text → (Order R → Order R) → Store R → Result (Store R)
  unfolding update_order breaks_index
  write_order id f s =
      if breaks_index id f s.orders s.orders
      then raise integrity
      else ok (record s { orders = update_order id f s.orders })

  unfoldable pub update_order_submit :
      Text → Option Text → OrderStatus → Option Text → Text → Action R (Order R)
  unfolding write_order get_order
  update_order_submit id qmt_order_id status qmt_status now =
      transaction (λ s. only_store (
        write_order id
          (λ (o : Order R). record o {
            qmt_order_id = qmt_order_id;
            status = status;
            qmt_status = qmt_status;
            updated_at = now;
          })
          s))
      >> get_order id
