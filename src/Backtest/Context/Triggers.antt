-- ===== src/Backtest/Context/Triggers.antt =====
-- BacktestStrategyContext.find_minute_amount_triggers
-- (backend/services/backtest_center/backtest_engine.py): the scan of a day's minute rows that a strategy
-- asks for. `dumps` is json.dumps of the diagnostic payload.
use qmt_trading.Base.{ℕ, Bool, not, Option, List, ◌++◌, if◌then◌else◌, leb, length, keep}
use qmt_trading.Text.{Text, codes, text_eq, is_empty}
use qmt_trading.Value.{show_ℕ}
use qmt_trading.Float.{Float}
use qmt_trading.Backtest.Exits.Rows.{MinuteRow}
use qmt_trading.Backtest.Context.{Context, log}
use qmt_trading.Data.Triggers.{Query, Trigger, Replay, at_least_one, replay_minute_amount_triggers}

-- What a strategy gives.
pub record Request (R : Type 0) : Type 0 where
  pub symbols : List Text
  pub start_time : Text
  pub end_time : Text
  pub min_amount : R
  pub consecutive_minutes : ℕ
  pub limit : ℕ

-- The line that the report reads the scan from.
pub record Diagnostic (R : Type 0) : Type 0 where
  pub mode : Text
  pub trade_date : Text
  pub candidate_symbols : ℕ
  pub symbols_with_minute_rows : ℕ
  pub minute_rows : ℕ
  pub first_minute : Option Text
  pub last_minute : Option Text
  pub request : Request R
  pub return_limit : ℕ
  pub triggers_returned : ℕ
  pub limit_hit : Bool

abbrev minute_replay : Text
minute_replay = codes "minute_replay"

abbrev diagnostic_prefix : Text
diagnostic_prefix = codes "分钟K扫描诊断："

module _ {R : Type 0} where
  -- The day is the only one that is scanned.
  abbrev pub query_of : Context R → Request R → Query R
  query_of c r = record {
    start_date = c.current_date;
    end_date = c.current_date;
    start_time = r.start_time;
    end_time = r.end_time;
    min_amount = r.min_amount;
    consecutive_minutes = r.consecutive_minutes;
    limit = r.limit;
  }

  abbrev in_replay_mode : Context R → Context R
  in_replay_mode c =
      let told =
        if text_eq c.minute_mode minute_replay
        then c
        else log (codes "分钟K快速扫描已禁用，本次自动按正式分钟回放逐行推演。") c in
      record told { minute_mode = minute_replay }

  abbrev diagnostic : Context R → Request R → Replay R → Diagnostic R
  diagnostic c r replay = record {
    mode = minute_replay;
    trade_date = c.current_date;
    candidate_symbols = length (keep (λ s. not (is_empty s)) r.symbols);
    symbols_with_minute_rows = replay.symbols_with_minute_rows;
    minute_rows = replay.rows_read;
    first_minute = replay.first_read;
    last_minute = replay.last_read;
    request = r;
    return_limit = at_least_one 6000 r.limit;
    triggers_returned = length replay.found;
    limit_hit = leb (at_least_one 6000 r.limit) (length replay.found);
  }

  abbrev cut_line : Context R → Diagnostic R → Text
  cut_line c d =
      codes "分钟K扫描提示："
      ++ c.current_date
      ++ codes " 触发数量达到返回上限 "
      ++ show_ℕ d.return_limit
      ++ codes "，结果可能被策略 limit 截断。"

  abbrev reported : (Diagnostic R → Text) → Diagnostic R → Context R → Context R
  reported dumps d c =
      let c' = log (diagnostic_prefix ++ dumps d) c in
      if d.limit_hit then log (cut_line c d) c' else c'

module _ {R : Type 0} ⦃F : Float R⦄ where
  unfoldable pub find_minute_amount_triggers :
      (Diagnostic R → Text)
      → List (MinuteRow R)
      → Request R
      → Context R
      → List (Trigger R) × Context R
  unfolding replay_minute_amount_triggers text_eq log show_ℕ
  find_minute_amount_triggers dumps table r c =
      let replay = replay_minute_amount_triggers (query_of c r) table r.symbols in
      (replay.found, reported dumps (diagnostic c r replay) (in_replay_mode c))
