-- ===== src/Backtest/Ensuring.antt =====
-- Partial results: a condition on the value of a computation that may raise.
use qmt_trading.Base.{◌≡◌, refl, ◌⊎◌, inl, inr}
use qmt_trading.Backtest.Types.{Error, Result, ok, raise, ◌>>=◌}

abbrev pub Ensures {ℓ κ} : {A : Type ℓ} → (A → Type κ) → Result A → Type κ
Ensures P (ok a) = P a
Ensures P (raise e) = Unit

pub Ensures->>= {ℓ κ μ ν} :
    {A : Type ℓ} {B : Type κ} (P : A → Type μ) (Q : B → Type ν) (m : Result A) (f : A → Result B)
    → Ensures P m
    → ((a : A) → P a → Ensures Q (f a))
    → Ensures Q (m >>= f)
Ensures->>= P Q (ok a) f h k = k a h
Ensures->>= P Q (raise e) f h k = tt

pub Ensures-unit {ℓ} : {A : Type ℓ} (m : Result A) → Ensures (λ a. Unit {0}) m
Ensures-unit (ok a) = tt
Ensures-unit (raise e) = tt

pub Result-cases {ℓ} :
    {A : Type ℓ} (m : Result A) → ((a : A) × (m ≡ ok a)) ⊎ ((e : Error) × (m ≡ raise e))
Result-cases (ok a) = inl (a, refl)
Result-cases (raise e) = inr (e, refl)
