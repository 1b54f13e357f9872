-- ===== src/Trading/Monad.antt =====
-- A call of the trading code: it reads and writes the tables, and may raise. What was committed
-- before an exception stays. A single database transaction that raises changes nothing.
use qmt_trading.Base.{Bool, Option, none, some, if◌then◌else◌}
use qmt_trading.Trading.Tables.{Store}

-- `TradingError` by its cause, and the exceptions of the database, the adapter and arithmetic.
pub data Failure : Type 0 where
  real_trading_not_enabled sync_disabled : Failure
  bad_symbol bad_side bad_lot over_max_amount : Failure
  no_account short_cash short_position : Failure
  signal_not_found order_not_found : Failure
  signal_not_orderable order_duplicated : Failure
  not_cancelable cancel_failed submit_failed : Failure
  integrity key_error bad_value : Failure
  adapter_blocked : Failure
  zero_division overflow : Failure
  task_cancelled : Failure

pub data Result (A : Type 0) : Type 0 where
  ok : A → Result A
  raise : Failure → Result A

abbrev pub Action : Type 0 → Type 0 → Type 0
Action R A = Store R → Result A × Store R

module _ {R A : Type 0} where
  abbrev pub return : A → Action R A
  return a s = (ok a, s)

  abbrev pub throw : Failure → Action R A
  throw x s = (raise x, s)

  abbrev pub gets : (Store R → A) → Action R A
  gets f s = (ok (f s), s)

  abbrev pub or_throw : Failure → Option A → Action R A
  or_throw x none = throw x
  or_throw x (some a) = return a

  -- A transaction: a new state and a value, or an exception and the old state.
  abbrev pub commit : Store R → Result (A × Store R) → Result A × Store R
  commit s (ok (a, s')) = (ok a, s')
  commit s (raise x) = (raise x, s)

  unfoldable pub transaction : (Store R → Result (A × Store R)) → Action R A
  transaction f s = commit s (f s)

  -- `try: m / except: handler`, where the handler sees the exception.
  unfoldable pub catch : Action R A → (Failure → Action R A) → Action R A
  catch m handler s = let (r, s') = m s in elim r [ ok a ↦ (ok a, s') | raise x ↦ handler x s' ]

abbrev pub after : {R A B : Type 0} → (A → Action R B) → Result A × Store R → Result B × Store R
after f (ok a, s) = f a s
after f (raise x, s) = (raise x, s)

infixl 5 ◌>>=◌ ◌>>◌
unfoldable pub ◌>>=◌ : {R A B : Type 0} → Action R A → (A → Action R B) → Action R B
◌>>=◌ m f s = after f (m s)

abbrev pub ◌>>◌ : {R A B : Type 0} → Action R A → Action R B → Action R B
m >> k = m >>= λ _. k

abbrev pub throw_if : {R : Type 0} → Bool → Failure → Action R (Unit {0})
throw_if b x s = (if b then raise x else ok tt, s)

abbrev pub modify : {R : Type 0} → (Store R → Store R) → Action R (Unit {0})
modify f s = (ok tt, f s)
