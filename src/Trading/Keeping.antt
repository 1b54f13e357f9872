-- ===== src/Trading/Keeping.antt =====
-- What a transaction and a chain of calls end with.
use qmt_trading.Base.{◌≡◌, ap}
use qmt_trading.Trading.Tables.{Store}
use qmt_trading.Trading.Monad.{
  Result, ok, raise, Action, Failure, transaction, commit, after, ◌>>=◌,
}

-- A transaction that commits.
pub transaction-ok :
    {R A : Type 0} (f : Store R → Result (A × Store R)) (s s' : Store R) (a : A)
    → f s ≡ ok (a, s')
    → transaction f s ≡ (ok a, s')
unfolding transaction
transaction-ok f s s' a e = ap (commit s) e

-- A transaction that raises changes nothing.
pub transaction-raise :
    {R A : Type 0} (f : Store R → Result (A × Store R)) (s : Store R) (x : Failure)
    → f s ≡ raise x
    → transaction f s ≡ (raise x, s)
unfolding transaction
transaction-raise f s x e = ap (commit s) e

-- What follows an exception does not run.
pub raise->>= :
    {R A B : Type 0} (m : Action R A) (k : A → Action R B) (s s' : Store R) (x : Failure)
    → m s ≡ (raise x, s')
    → (m >>= k) s ≡ (raise x, s')
unfolding ◌>>=◌
raise->>= m k s s' x e = ap (after k) e

-- What follows a call that returns runs on the tables it leaves.
pub ok->>= :
    {R A B : Type 0} (m : Action R A) (k : A → Action R B) (s s' : Store R) (a : A)
    → m s ≡ (ok a, s')
    → (m >>= k) s ≡ k a s'
unfolding ◌>>=◌
ok->>= m k s s' a e = ap (after k) e
