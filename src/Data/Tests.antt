-- ===== src/Data/Tests.antt =====
-- The theorems on the data center at small tables and requests.
use qmt_trading.Base.{
  ◌+◌, ◌<◌, ◌≡◌, ◌↔◌, refl, true, false, ◌||◌, Option, none, some, List, [], ◌∷◌, map, All, keep,
  length, any_of,
}
use qmt_trading.Base.Int.{ℤ, pos}
use qmt_trading.Text.{Text, codes, prefix, is_empty}
use qmt_trading.Text.Symbol.{is_symbol}
use qmt_trading.Dict.{Dict, lookup}
use qmt_trading.Float.Fixed.{Fixed, units, fixed_float}
use qmt_trading.Value.{Value, text, num}
use qmt_trading.Data.Fields.{Formats, ok}
use qmt_trading.Data.Symbols.{normalize_symbol}
use qmt_trading.Data.Symbols.Standard.{normalize_symbol-standard}
use qmt_trading.Data.Standard.Kline.{standardize_daily_kline, standardize_minute_kline}
use qmt_trading.Data.Standard.Accounts.{
  standardize_positions, standardize_orders, standardize_trades,
}
use qmt_trading.Data.Standard.Usable.{
  Ensures, IsUsable, standardized-IsUsable, standardized-HasAccount,
}
use qmt_trading.Data.Coverage.{
  Stats, Minute, Counts, complete, failed, missing, build_coverage_row, has_day, all_of,
  has_symbol_day_coverage, merge_minute_rows_into_coverage,
}
use qmt_trading.Data.Coverage.Merged.{is_row_of, is_row_on, merge_minute_rows-counted}
use qmt_trading.Data.Coverage.Status.{IsCovered, build_coverage_row-status}
use qmt_trading.Data.Freshness.{
  CoverageRecord, Probe, success, build_freshness_item, freshness_status_counts,
}
use qmt_trading.Data.Freshness.Fresh.{IsUpToDate, freshness-success}
use qmt_trading.Data.Requests.{
  Sizes, LatestDataSyncRequest, Prepare2026Request, clamp, normalize_latest_data_sync_request,
  normalize_prepare_2026_request,
}
use qmt_trading.Data.Requests.Bounds.{IsInRange, normalized-IsInRange}
use qmt_trading.Backtest.Exits.Rows.{MinuteRow}
use qmt_trading.Data.Triggers.{Query, replay_minute_amount_triggers}
use qmt_trading.Data.Triggers.Sound.{
  IsEarned, is_high, dated, wanted, replay_minute_amount_triggers-IsEarned,
}
use qmt_trading.Data.Windows.{or_days, minute_date_windows}
use qmt_trading.Data.Windows.Cover.{Group, ends, joined, IsWindow, minute_date_windows-cover}

abbrev bank : Text
bank = codes "600000.SH"

standard : is_symbol bank ≡ true
unfolding is_symbol qmt_trading.Text.all_digits qmt_trading.Text.is_digit qmt_trading.Text.text_eq
standard = refl

normalize_symbol-standard_example : normalize_symbol {R = Fixed} (text bank) ≡ bank
normalize_symbol-standard_example = normalize_symbol-standard Fixed bank standard

abbrev formats : Formats
formats = record { read_date = λ fmt t. some t; read_time = λ fmt t. some t }

abbrev row : Dict (Value Fixed)
row =
    (codes "symbol", text (codes "sh600000"))
    ∷ (codes "trade_date", text (codes "2024-01-03"))
    ∷ (codes "datetime", text (codes "2024-01-03 09:31:00"))
    ∷ (codes "account_id", text (codes "8001"))
    ∷ (codes "open", num (units (pos 100000)))
    ∷ []

standardized-IsUsable_example :
    Ensures (All IsUsable) (standardize_daily_kline formats (row ∷ []))
    × Ensures (All (λ m. IsUsable m.row)) (standardize_minute_kline formats (row ∷ []))
standardized-IsUsable_example = standardized-IsUsable formats (row ∷ []) (row ∷ [])

standardized-HasAccount_example :
    Ensures (All (λ p. is_empty p.account_id ≡ false)) (standardize_positions (row ∷ []))
    × Ensures (All (λ o. is_empty o.account_id ≡ false)) (standardize_orders (row ∷ []))
    × Ensures (All (λ t. is_empty t.account_id ≡ false)) (standardize_trades (row ∷ []))
standardized-HasAccount_example = standardized-HasAccount (row ∷ [])

abbrev stats : Stats
stats = record { rows = 3; days = codes "2024-01-02" ∷ [] }

abbrev rows : List Minute
rows = record { symbol = bank; datetime = codes "2024-01-03 09:31:00" } ∷ []

known : lookup bank ((bank, stats) ∷ []) ≡ some stats
unfolding lookup qmt_trading.Text.text_eq
known = refl

merge_minute_rows-counted_example :
    (after : Stats) × (lookup bank (merge_minute_rows_into_coverage rows ((bank, stats) ∷ []))
      ≡ some after)
    × (after.rows ≡ stats.rows + length (keep (is_row_of bank) rows))
    × ((expected : List Text)
        → has_symbol_day_coverage expected after
          ≡ all_of (λ d. has_day d stats.days || any_of (is_row_on bank d) rows) expected)
merge_minute_rows-counted_example =
    merge_minute_rows-counted bank rows ((bank, stats) ∷ []) stats known

abbrev counts : Counts
counts = record {
  expected_trading_days = 2;
  actual_trading_days = 2;
  expected_rows = some 480;
  actual_rows = 400;
  duplicate_rows = 0;
}

build_coverage_row-status_example :
    let r =
      build_coverage_row {R = Fixed}
        (codes "minute_kline")
        bank
        (codes "1m")
        (codes "2024-01-02")
        (codes "2024-01-03")
        counts
        []
        (codes "2024-01-04") in
    ((r.status ≡ complete) ↔ ((counts.duplicate_rows ≡ 0) × IsCovered counts))
    × ((r.status ≡ failed) ↔ (0 < counts.duplicate_rows))
    × (r.status ≡ missing → counts.actual_rows ≡ 0)
build_coverage_row-status_example =
    build_coverage_row-status Fixed (codes "minute_kline") bank (codes "1m") (codes "2024-01-02")
      (codes "2024-01-03") counts [] (codes "2024-01-04")

abbrev coverage : CoverageRecord Fixed
coverage = record {
  data_type = codes "daily_kline";
  status = complete;
  coverage_rate = units (pos 1000000);
  actual_rows = 2;
  checked_at = codes "2024-01-04";
}

abbrev probes : List (Probe Fixed)
probes =
    record {
      key = codes "daily_kline";
      name = codes "日K";
      table_name = codes "daily_kline";
      latest_time = some (codes "2024-01-03");
      suggestion = codes "sync";
      target_date = codes "2024-01-03";
      required = true;
      coverage = some coverage;
      fresh_suggestion = none;
    }
    ∷ []

abbrev no_days : Text → Text → Option ℤ
no_days a b = some (pos 0)

freshness-success_example :
    ((freshness_status_counts (map (build_freshness_item no_days) probes)).2 ≡ success)
    ↔ All IsUpToDate probes
freshness-success_example = freshness-success no_days probes

abbrev sizes : Sizes
sizes = record { daily_batch_size = 500; minute_batch_size = 0; minute_window_days = 9 }

abbrev latest : LatestDataSyncRequest
latest = record {
  start_date = [];
  end_date = none;
  include_account = true;
  include_positions = true;
  include_orders = true;
  include_trades = true;
  include_daily_kline = true;
  include_minute_kline = false;
  include_full_market_minute = false;
  sizes = sizes;
  period = codes "1min";
  symbols = bank ∷ [] ∷ [];
  overwrite_existing = false;
}

abbrev prepare : Prepare2026Request
prepare = record {
  start_date = [];
  end_date = none;
  stock_scope = [];
  symbols = bank ∷ [] ∷ [];
  include_daily_kline = true;
  include_minute_kline = true;
  include_full_market_minute = false;
  include_financial = false;
  sizes = sizes;
  period = codes "1m";
  overwrite_existing = false;
  retry_failed = true;
}

normalized-IsInRange_example :
    let latest' = normalize_latest_data_sync_request Fixed latest (codes "2026-03-01") in
    let prepare' = normalize_prepare_2026_request Fixed prepare (codes "2026-03-01") in
    IsInRange latest'.sizes
    × IsInRange prepare'.sizes
    × All (λ s. is_empty s ≡ false) latest'.symbols
    × All (λ s. is_empty s ≡ false) prepare'.symbols
    × ((normalize_latest_data_sync_request Fixed latest' (codes "2026-03-01")).sizes
        ≡ latest'.sizes)
    × ((normalize_prepare_2026_request Fixed prepare' (codes "2026-03-01")).sizes ≡ prepare'.sizes)
normalized-IsInRange_example = normalized-IsInRange Fixed latest prepare (codes "2026-03-01")

-- Days that are one day apart.
abbrev between : Text → Text → ℤ
between a b = pos 1

abbrev three_days : List Text
three_days = codes "2024-01-02" ∷ codes "2024-01-03" ∷ codes "2024-01-04" ∷ []

minute_date_windows-cover_example :
    (groups : List Group) × (minute_date_windows (λ a b. some (between a b)) three_days [] 2
      ≡ ok (map ends groups))
    × (joined groups ≡ or_days three_days [])
    × All (IsWindow between (clamp 7 2)) groups
minute_date_windows-cover_example = minute_date_windows-cover between three_days [] 2

abbrev minute_row : Text → MinuteRow Fixed
minute_row time = record {
  symbol = bank;
  datetime = time;
  period = codes "1m";
  open_price = units (pos 100000);
  high = units (pos 120000);
  low = units (pos 90000);
  close = units (pos 110000);
  pre_close = units (pos 100000);
  volume = units (pos 10000000);
  amount = units (pos 600000000000);
  suspend_flag = pos 0;
}

abbrev minute_table : List (MinuteRow Fixed)
minute_table =
    minute_row (codes "2024-01-03 09:31:00") ∷ minute_row (codes "2024-01-03 09:32:00") ∷ []

abbrev query : Query Fixed
query = record {
  start_date = codes "2024-01-03";
  end_date = codes "2024-01-03";
  start_time = codes "09:30:00";
  end_time = codes "10:30:00";
  min_amount = units (pos 500000000000);
  consecutive_minutes = 2;
  limit = 20;
}

replay_minute_amount_triggers-IsEarned_example :
    All
      (IsEarned (is_high query minute_table) (dated query minute_table) (wanted query minute_table))
      (replay_minute_amount_triggers query minute_table (bank ∷ [])).found
replay_minute_amount_triggers-IsEarned_example =
    replay_minute_amount_triggers-IsEarned query minute_table (bank ∷ [])

-- The run of two minutes is found.
found_bank : length (replay_minute_amount_triggers query minute_table (bank ∷ [])).found ≡ 1
unfolding qmt_trading.Data.Triggers.in_dates qmt_trading.Data.Triggers.leading_number
    qmt_trading.Data.Triggers.minute_of qmt_trading.Data.Triggers.query_rows
    qmt_trading.Data.Triggers.on_row_by qmt_trading.Data.Triggers.scan_rows
    qmt_trading.Data.Triggers.scan_chunks qmt_trading.Data.Triggers.replay_minute_amount_triggers
    qmt_trading.Text.text_eq qmt_trading.Text.text_lt qmt_trading.Text.starts_with
    qmt_trading.Text.contains qmt_trading.Text.is_digit qmt_trading.Text.is_space
    qmt_trading.Text.all_digits qmt_trading.Text.lstrip qmt_trading.Text.strip
    qmt_trading.Text.upper qmt_trading.Text.lower qmt_trading.Dict.lookup qmt_trading.Dict.insert
    qmt_trading.Dict.get_or qmt_trading.Base.Sorting.insert_sorted qmt_trading.Base.Sorting.sort_by
    qmt_trading.Base.Int.◌+ℤ◌ qmt_trading.Base.Int.◌-ℤ◌ qmt_trading.Data.Symbols.split_dot
    qmt_trading.Data.Symbols.zfill qmt_trading.Data.Symbols.market_of
    qmt_trading.Data.Symbols.by_digit qmt_trading.Data.Symbols.without_dot
    qmt_trading.Data.Symbols.symbol_of qmt_trading.Data.Symbols.normalize_symbol
    qmt_trading.Data.Symbols.is_standard_symbol qmt_trading.Text.Symbol.is_symbol
found_bank = refl
