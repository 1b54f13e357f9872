-- ===== src/Trading/Unique/Linked.antt =====
-- signal_order, where signal_id is unique: signals that have a row, and orders from them.
use qmt_trading.Base.{
  ℕ, ◌≡◌, refl, inl, inr, Bool, true, ◌&&◌, Option, none, some, List, [], ◌∷◌, map, any_of,
  find_first, ◌==◌, arith, Bool-cases,
}
use qmt_trading.Text.{Text, text_eq}
use qmt_trading.Trading.Tables.{Store, Order, SignalOrder, SignalRow, unhandled}
use qmt_trading.Trading.Monad.{Result, raise, Failure, integrity, bad_value, key_error}
use qmt_trading.Trading.Keeping.{transaction-raise, raise->>=}
use qmt_trading.Trading.Repository.{
  clash, insert_order, insert_link, new_link, link_clash, link_and_mark, linked_order,
  order_if_open, signal_order_transaction, create_signal_order, mark_signal_order_failed, fail_link,
  is_unhandled, get_order, reopen, same_key,
}

unfoldable pub has_link : ℕ → List SignalOrder → Bool
has_link n links = any_of (λ (l : SignalOrder). l.signal_id == n) links

eq_flip : (a b : ℕ) → (a == b) ≡ true → (b == a) ≡ true
eq_flip a b h = ground (arith)

link_clashes :
    (n : ℕ)
    → (id now : Text) → (links : List SignalOrder) → has_link n links ≡ true
    → any_of (λ b. link_clash (new_link n id now) b) links ≡ true
unfolding has_link
link_clashes n id now [] h = h
link_clashes n id now (l ∷ ls) h = elim (Bool-cases (l.signal_id == n)) [
  | inl e ↦ rw (eq_flip l.signal_id n e) refl
  | inr e ↦ ground (arith, link_clashes n id now ls)
]

fail_link_id :
    (m : ℕ) → (id : Text) → (l : SignalOrder) → (fail_link m id l).signal_id ≡ l.signal_id
fail_link_id m id l = elim (Bool-cases (l.signal_id == m && text_eq l.local_order_id id)) [
  | inl e ↦ rw e refl
  | inr e ↦ rw e refl
]

has_link-fail_link :
    (n m : ℕ)
    → (id : Text) → (links : List SignalOrder)
    → has_link n (map (fail_link m id) links) ≡ has_link n links
unfolding has_link
has_link-fail_link n m id [] = refl
has_link-fail_link n m id (l ∷ ls) =
    rw (fail_link_id m id l) (rw (has_link-fail_link n m id ls) refl)

abbrev Raised : {A : Type 0} → Result A → Type 0
Raised {A} r = (x : Failure) × (r ≡ raise x)

module _ {R : Type 0} where
  linked_order-Raised :
      (row : Order R)
      → (n : ℕ) → (now : Text) → (s : Store R) → has_link n s.signal_orders ≡ true
      → Raised (linked_order row n now (insert_order row s))
  unfolding insert_order link_and_mark insert_link
  linked_order-Raised row n now s h = elim (Bool-cases (any_of (clash row) s.orders)) [
    | inl e ↦ rw e (integrity, refl)
    | inr e ↦ rw e (rw (link_clashes n row.local_order_id now s.signal_orders h) (integrity, refl))
  ]

  order_if_open-Raised :
      (row : Order R)
      → (n : ℕ) → (now : Text) → (s : Store R) → (signal : Option (SignalRow R))
      → has_link n s.signal_orders ≡ true
      → Raised (order_if_open row n now s signal)
  unfolding order_if_open
  order_if_open-Raised row n now s none h = (key_error, refl)
  order_if_open-Raised row n now s (some r) h = elim (Bool-cases (is_unhandled r.status)) [
    | inl e ↦ rw e (linked_order-Raised row n now s h)
    | inr e ↦ rw e (bad_value, refl)
  ]

  refused :
      (row : Order R)
      → (n : ℕ) → (now : Text) → (s : Store R) → (x : Failure)
      → signal_order_transaction row n now s ≡ raise x
      → create_signal_order row n now s ≡ (raise x, s)
  unfolding create_signal_order
  refused row n now s x e =
      raise->>= _ (λ u. get_order row.local_order_id) s s x
        (transaction-raise (signal_order_transaction row n now) s x e)

  -- A signal that has a row in signal_order gets no second order, whatever its state: the insertion
  -- raises, and no table changes.
  pub create_signal_order-linked :
      (row : Order R)
      → (n : ℕ) → (now : Text) → (s : Store R) → has_link n s.signal_orders ≡ true
      → (x : Failure) × (create_signal_order row n now s ≡ (raise x, s))
  unfolding signal_order_transaction
  create_signal_order-linked row n now s h =
      let (x, e) = order_if_open-Raised row n now s _ h in (x, refused row n now s x e)

  reopened :
      (n : ℕ)
      → (id : Text) → (rows : List (SignalRow R)) → (r : SignalRow R)
      → find_first (λ (q : SignalRow R). q.id == n) rows ≡ some r
      → same_key r.order_id (some id) ≡ true
      → find_first (λ (q : SignalRow R). q.id == n) (map (reopen n id) rows)
        ≡ some (record r { status = unhandled })
  reopened n id [] r e k = absurd (ground arith)
  reopened n id (q ∷ qs) r e k = elim (Bool-cases (q.id == n)) [
    | inl m ↦
        let same : q ≡ r = ground (arith, e, m) in
        let k' : same_key q.order_id (some id) ≡ true = rw same k in
        rw (m, k') (rw m (rw same refl))
    | inr m ↦ rw m (rw m (reopened n id qs r (rw m at e) k))
  ]

  -- For a signal whose row in strategy_signal names the order and that has a row in signal_order,
  -- mark_signal_order_failed makes the signal 未处理, and yet the signal cannot be ordered again: its
  -- row in signal_order stays, the next insertion raises, and no table changes.
  pub mark_signal_order_failed-linked :
      (row : Order R)
      → (n : ℕ) → (id now : Text) → (s : Store R) → (r : SignalRow R)
      → find_first (λ (q : SignalRow R). q.id == n) s.signals ≡ some r
      → same_key r.order_id (some id) ≡ true
      → has_link n s.signal_orders ≡ true
      → (find_first (λ (q : SignalRow R). q.id == n) (mark_signal_order_failed n id s).signals
          ≡ some (record r { status = unhandled }))
        × (x : Failure) × (create_signal_order row n now (mark_signal_order_failed n id s)
            ≡ (raise x, mark_signal_order_failed n id s))
  unfolding mark_signal_order_failed
  mark_signal_order_failed-linked row n id now s r e k h =
      let kept : has_link n (map (fail_link n id) s.signal_orders) ≡ true =
        rw (has_link-fail_link n n id s.signal_orders) h in
      let (x, raised) = create_signal_order-linked row n now _ kept in
      (reopened n id s.signals r e k, x, raised)
