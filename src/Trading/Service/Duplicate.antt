-- ===== src/Trading/Service/Duplicate.antt =====
-- An order that is sent again, by hand or from a signal, while its first copy is active.
use qmt_trading.Base.{◌≡◌, ◌⊎◌, none}
use qmt_trading.Text.{Text, strip, upper}
use qmt_trading.Float.{Float}
use qmt_trading.Trading.Tables.{Store, AccountRow, manual}
use qmt_trading.Trading.Monad.{Action, Result, ok, raise, Failure}
use qmt_trading.Trading.Service.{ManualOrderRequest}
use qmt_trading.Trading.Service.Checks.{Service, idempotency_key}

-- A call that only reads: it raises or returns, and leaves the tables.
abbrev Reads : {R A : Type 0} → Action R A → Store R → Type 0
Reads {R} {A} m s = ((x : Failure) × (m s ≡ (raise x, s))) ⊎ ((a : A) × (m s ≡ (ok a, s)))

-- A call that raises or returns the value, and leaves the tables.
abbrev pub OnlyGives : {R A : Type 0} → A → Store R → Result A × Store R → Type 0
OnlyGives {R} {A} a s r = ((x : Failure) × (r ≡ (raise x, s))) ⊎ (r ≡ (ok a, s))

module _ {R : Type 0} ⦃F : Float R⦄ where
  -- The key of a request for an account, in the minute of the call.
  abbrev pub manual_key : Service R → ManualOrderRequest R → AccountRow R → Text
  manual_key v q account =
      idempotency_key v account.account_id (upper (strip q.symbol)) (upper (strip q.side)) q.price
        q.quantity manual none
