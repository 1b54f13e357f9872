-- ===== src/Data/Requests/Plan.antt =====
-- build_prepare_2026_plan and build_prepare_2026_warnings of
-- backend/services/data_center/data_center_sync_plan.py.
use qmt_trading.Base.{
  ℕ, Bool, true, false, not, ◌&&◌, Option, none, some, List, [], ◌∷◌, ◌++◌, if◌then◌else◌,
}
use qmt_trading.Text.{Text, codes}
use qmt_trading.Value.{show_ℕ}
use qmt_trading.Data.Requests.{Prepare2026Request}

pub record MinutePlanStats : Type 0 where
  pub scope_text : Text
  pub symbol_count : ℕ
  pub trading_day_count : ℕ
  pub window_count : ℕ
  pub total_batches : ℕ

pub record Prepare2026Step : Type 0 where
  pub step_no : ℕ
  pub data_type : Text
  pub name : Text
  pub scope : Text
  pub required : Bool
  pub long_task : Bool
  pub default_enabled : Bool
  pub warning : Option Text

pub record Prepare2026Plan : Type 0 where
  pub start_date : Text
  pub end_date : Option Text
  pub stock_scope : Text
  pub period : Text
  pub steps : List Prepare2026Step
  pub warnings : List Text
  pub test_isolation : Bool
  pub mock_safe : Bool

abbrev none_given : List Text → Bool
none_given [] = true
none_given (s ∷ ss) = false

abbrev warn_if : Bool → Text → List Text
warn_if true t = t ∷ []
warn_if false t = []

abbrev minute_warnings : Prepare2026Request → Option MinutePlanStats → List Text
minute_warnings r none = []
minute_warnings r (some m) =
    if r.include_minute_kline
    then (codes "2026 分钟 K 将按"
        ++ m.scope_text
        ++ codes "执行：约 "
        ++ show_ℕ m.symbol_count
        ++ codes " 只股票、"
        ++ show_ℕ m.trading_day_count
        ++ codes " 个交易日、"
        ++ show_ℕ m.window_count
        ++ codes " 个时间窗口、"
        ++ show_ℕ m.total_batches
        ++ codes " 个批次；使用日 K 可交易日校验和 sync_cursor 断点续跑。")
      ∷ warn_if r.include_full_market_minute
          (codes "全市场分钟 K 数据量很大，属于显式手动长任务；系统不会默认自动开启，也不会只截断首批 200 只。")
    else []

unfoldable pub build_prepare_2026_warnings : Prepare2026Request → Option MinutePlanStats → List Text
unfolding show_ℕ
build_prepare_2026_warnings r minute_stats =
    codes "不会同步未来尚未发生的行情数据。"
    ∷ codes "不会默认同步全市场 Tick、Level2、信用账户或外部数据源。"
    ∷ codes "全市场 2026 分钟 K 属于手动长任务，默认关闭。"
    ∷ (codes "2026 日 K 一次点击会自动跑完整市场，内部按每批最多 "
        ++ show_ℕ r.sizes.daily_batch_size
        ++ codes " 只股票自动执行，并使用 sync_cursor 断点续跑。")
    ∷ (minute_warnings r minute_stats
        ++ warn_if
            (r.include_minute_kline && not r.include_full_market_minute && none_given r.symbols)
            (codes "分钟 K 未指定股票时，只使用当前持仓；没有持仓数据时仅取少量示例股票，避免误跑全市场。")
        ++ warn_if (r.include_full_market_minute && not r.include_minute_kline)
            (codes "已选择全市场分钟 K 范围，但分钟 K 同步未启用；本次只生成计划不执行分钟 K。"))

abbrev step : ℕ → Text → Text → Text → Bool → Bool → Bool → Option Text → Prepare2026Step
step step_no data_type name scope required long_task default_enabled warning = record {
  step_no = step_no;
  data_type = data_type;
  name = name;
  scope = scope;
  required = required;
  long_task = long_task;
  default_enabled = default_enabled;
  warning = warning;
}

abbrev minute_scope : Prepare2026Request → Text
minute_scope r = if r.include_full_market_minute then codes "全市场手动长任务" else codes "持仓 / 策略池 / 手动股票"

abbrev plan_steps : Prepare2026Request → Text → List Prepare2026Step
plan_steps r scope =
    step 1 (codes "stock_basic") (codes "股票基础资料") scope true true true none
    ∷ step 2 (codes "trading_calendar") (codes "2026 交易日历") (codes "SH / SZ，2026 已发生交易日") true false
        true (some (codes "业务运行使用真实 QMT 交易日历；测试隔离数据仅用于自动化回归，不作为正式验收依据。"))
    ∷ step 3 (codes "instrument_detail") (codes "合约基础信息") scope true true true none
    ∷ step 4 (codes "daily_kline") (codes "2026 日 K") scope true true r.include_daily_kline none
    ∷ step 5 (codes "minute_kline") (codes "2026 " ++ r.period ++ codes " 分钟 K") (minute_scope r)
        true true r.include_minute_kline (some (codes "全市场 2026 分钟 K 默认不自动执行，必须用户手动勾选并分批运行。"))
    ∷ step 6 (codes "financial") (codes "2026 已披露财务数据") scope false true r.include_financial
        (some (codes "财务数据规划中；回测使用必须按披露日期过滤，避免未来函数。"))
    ∷ []

unfoldable pub build_prepare_2026_plan :
    Prepare2026Request → Text → Bool → Option MinutePlanStats → Prepare2026Plan
unfolding build_prepare_2026_warnings
build_prepare_2026_plan r scope_label test_isolation minute_stats = record {
  start_date = r.start_date;
  end_date = r.end_date;
  stock_scope = r.stock_scope;
  period = r.period;
  steps = plan_steps r scope_label;
  warnings = build_prepare_2026_warnings r minute_stats;
  test_isolation = test_isolation;
  mock_safe = test_isolation;
}
