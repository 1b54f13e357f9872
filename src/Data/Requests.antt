-- ===== src/Data/Requests.antt =====
-- backend/services/data_center/data_center_requests.py: the requests of a synchronization, brought to the
-- ranges that the loops over batches and windows work with, and
-- backend/services/data_center/data_center_sync_plan.py: the plan and its warnings.
pub mod Plan
pub mod Bounds
use qmt_trading.Base.{
  ℕ, Bool, true, false, not, ◌&&◌, Option, none, some, List, [], ◌∷◌, map, if◌then◌else◌, ltb,
}
use qmt_trading.Text.{Text, codes, is_empty, or_text}
use qmt_trading.Float.{Float}
use qmt_trading.Value.{Value, text}
use qmt_trading.Data.Fields.{Formats, normalize_datetime, normalize_period}
use qmt_trading.Data.Symbols.{normalize_symbol}

pub record SyncRequest : Type 0 where
  pub symbols : List Text
  pub start_date : Option Text
  pub end_date : Option Text
  pub start_time : Option Text
  pub end_time : Option Text
  pub period : Text

-- The sizes that both long requests carry.
pub record Sizes : Type 0 where
  pub daily_batch_size : ℕ
  pub minute_batch_size : ℕ
  pub minute_window_days : ℕ

pub record LatestDataSyncRequest : Type 0 where
  pub start_date : Text
  pub end_date : Option Text
  pub include_account : Bool
  pub include_positions : Bool
  pub include_orders : Bool
  pub include_trades : Bool
  pub include_daily_kline : Bool
  pub include_minute_kline : Bool
  pub include_full_market_minute : Bool
  pub sizes : Sizes
  pub period : Text
  pub symbols : List Text
  pub overwrite_existing : Bool

pub record Prepare2026Request : Type 0 where
  pub start_date : Text
  pub end_date : Option Text
  pub stock_scope : Text
  pub symbols : List Text
  pub include_daily_kline : Bool
  pub include_minute_kline : Bool
  pub include_full_market_minute : Bool
  pub include_financial : Bool
  pub sizes : Sizes
  pub period : Text
  pub overwrite_existing : Bool
  pub retry_failed : Bool

-- `max(1, min(n, bound))`
abbrev pub clamp : ℕ → ℕ → ℕ
clamp bound n = let low = if ltb bound n then bound else n in if ltb 1 low then low else 1

abbrev pub clamp_sizes : Sizes → Sizes
clamp_sizes s = record {
  daily_batch_size = clamp 200 s.daily_batch_size;
  minute_batch_size = clamp 100 s.minute_batch_size;
  minute_window_days = clamp 7 s.minute_window_days;
}

abbrev or_option : Option Text → Text → Text
or_option none t = t
or_option (some s) t = or_text s t

-- The exception of `validate_latest_data_sync_request`.
pub data Scope : Type 0 where
  accepted minute_scope_required : Scope

abbrev no_symbols : List Text → Bool
no_symbols [] = true
no_symbols (s ∷ ss) = false

unfoldable pub validate_latest_data_sync_request : LatestDataSyncRequest → Scope
validate_latest_data_sync_request r =
    if r.include_minute_kline && not r.include_full_market_minute && no_symbols r.symbols
    then minute_scope_required
    else accepted

abbrev given : (Text → Text) → Option Text → Option Text
given f none = none
given f (some t) = if is_empty t then none else some (f t)

module _ (R : Type 0) ⦃F : Float R⦄ where
  abbrev pub code_of : Text → Text
  code_of t = normalize_symbol {R = R} (text t)

  abbrev period_of : Text → Text
  period_of t = normalize_period {R = R} (text t)

  unfoldable pub normalized_symbols : List Text → List Text
  unfolding normalize_symbol
  normalized_symbols [] = []
  normalized_symbols (s ∷ ss) =
      let rest = normalized_symbols ss in if is_empty (code_of s) then rest else code_of s ∷ rest

  unfoldable pub normalize_sync_request : Formats → SyncRequest → SyncRequest
  unfolding normalized_symbols normalize_datetime normalize_period
  normalize_sync_request formats r = record {
    symbols = normalized_symbols r.symbols;
    start_date = r.start_date;
    end_date = r.end_date;
    start_time = given (λ t. normalize_datetime {R = R} formats (text t)) r.start_time;
    end_time = given (λ t. normalize_datetime {R = R} formats (text t)) r.end_time;
    period = period_of r.period;
  }

  unfoldable pub normalize_latest_data_sync_request :
      LatestDataSyncRequest → Text → LatestDataSyncRequest
  unfolding normalized_symbols normalize_period
  normalize_latest_data_sync_request r default_end_date = record {
    start_date = or_text r.start_date (codes "2026-01-01");
    end_date = some (or_option r.end_date default_end_date);
    include_account = r.include_account;
    include_positions = r.include_positions;
    include_orders = r.include_orders;
    include_trades = r.include_trades;
    include_daily_kline = r.include_daily_kline;
    include_minute_kline = r.include_minute_kline;
    include_full_market_minute = r.include_full_market_minute;
    sizes = clamp_sizes r.sizes;
    period = period_of r.period;
    symbols = normalized_symbols r.symbols;
    overwrite_existing = r.overwrite_existing;
  }

  unfoldable pub normalize_prepare_2026_request : Prepare2026Request → Text → Prepare2026Request
  unfolding normalized_symbols normalize_period
  normalize_prepare_2026_request r default_end_date = record {
    start_date = or_text r.start_date (codes "2026-01-01");
    end_date = some (or_option r.end_date default_end_date);
    stock_scope = or_text r.stock_scope (codes "all_a_share");
    symbols = normalized_symbols r.symbols;
    include_daily_kline = r.include_daily_kline;
    include_minute_kline = r.include_minute_kline;
    include_full_market_minute = r.include_full_market_minute;
    include_financial = r.include_financial;
    sizes = clamp_sizes r.sizes;
    period = period_of r.period;
    overwrite_existing = r.overwrite_existing;
    retry_failed = r.retry_failed;
  }
