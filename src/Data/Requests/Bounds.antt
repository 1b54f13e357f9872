-- ===== src/Data/Requests/Bounds.antt =====
-- What a request asks for after it was brought to its ranges.
use qmt_trading.Base.{ℕ, ◌≡◌, refl, ◌≤◌, inl, inr, false, List, [], ◌∷◌, All, arith, Bool-cases}
use qmt_trading.Text.{Text, is_empty}
use qmt_trading.Float.{Float}
use qmt_trading.Data.Requests.{
  Sizes, clamp, clamp_sizes, LatestDataSyncRequest, Prepare2026Request, normalized_symbols, code_of,
  normalize_latest_data_sync_request, normalize_prepare_2026_request,
}

pub record IsInRange (s : Sizes) : Type 0 where
  pub daily : (1 ≤ s.daily_batch_size) × (s.daily_batch_size ≤ 200)
  pub minute : (1 ≤ s.minute_batch_size) × (s.minute_batch_size ≤ 100)
  pub window : (1 ≤ s.minute_window_days) × (s.minute_window_days ≤ 7)

clamp-IsInRange : (bound n : ℕ) → 1 ≤ bound → (1 ≤ clamp bound n) × (clamp bound n ≤ bound)
clamp-IsInRange bound n h = ground arith

clamp_sizes-IsInRange : (s : Sizes) → IsInRange (clamp_sizes s)
clamp_sizes-IsInRange s = record {
  daily = clamp-IsInRange 200 s.daily_batch_size (omega arith);
  minute = clamp-IsInRange 100 s.minute_batch_size (omega arith);
  window = clamp-IsInRange 7 s.minute_window_days (omega arith);
}

clamp_kept : (bound n : ℕ) → 1 ≤ n → n ≤ bound → clamp bound n ≡ n
clamp_kept bound n h k = ground arith

normalized-nonempty :
    (R : Type 0) ⦃F : Float R⦄ (ss : List Text)
    → All (λ s. is_empty s ≡ false) (normalized_symbols R ss)
unfolding normalized_symbols
normalized-nonempty R [] = tt
normalized-nonempty R (s ∷ ss) = elim (Bool-cases (is_empty (code_of R s))) [
  | inl e ↦ rw e (normalized-nonempty R ss)
  | inr e ↦ rw e (e, normalized-nonempty R ss)
]

clamp_twice : (s : Sizes) → clamp_sizes (clamp_sizes s) ≡ clamp_sizes s
clamp_twice s =
    let r = clamp_sizes-IsInRange s in
    rw
      (
        clamp_kept 200 (clamp 200 s.daily_batch_size) r.daily.0 r.daily.1,
        clamp_kept 100 (clamp 100 s.minute_batch_size) r.minute.0 r.minute.1,
        clamp_kept 7 (clamp 7 s.minute_window_days) r.window.0 r.window.1,
      )
      refl

-- The two long requests, whatever the caller gave, ask for batches of 1 to 200 and 1 to 100 stocks and
-- for windows of 1 to 7 days, name no empty code, and have the same sizes when they are brought to
-- their ranges again.
pub normalized-IsInRange :
    (R : Type 0) ⦃F : Float R⦄ (latest : LatestDataSyncRequest) (prepare : Prepare2026Request)
    (end_date : Text)
    → let latest' = normalize_latest_data_sync_request R latest end_date in
      let prepare' = normalize_prepare_2026_request R prepare end_date in
      IsInRange latest'.sizes
      × IsInRange prepare'.sizes
      × All (λ s. is_empty s ≡ false) latest'.symbols
      × All (λ s. is_empty s ≡ false) prepare'.symbols
      × ((normalize_latest_data_sync_request R latest' end_date).sizes ≡ latest'.sizes)
      × ((normalize_prepare_2026_request R prepare' end_date).sizes ≡ prepare'.sizes)
unfolding normalize_latest_data_sync_request normalize_prepare_2026_request
normalized-IsInRange R latest prepare end_date = (
  clamp_sizes-IsInRange latest.sizes,
  clamp_sizes-IsInRange prepare.sizes,
  normalized-nonempty R latest.symbols,
  normalized-nonempty R prepare.symbols,
  clamp_twice latest.sizes,
  clamp_twice prepare.sizes,
)
