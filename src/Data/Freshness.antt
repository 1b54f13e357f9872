-- ===== src/Data/Freshness.antt =====
-- backend/services/data_center/data_center_freshness.py: how far a table is behind the target day.
-- `days_between a b` is (b - a).days of the two dates, none where strptime raises ValueError.
pub mod Fresh
use qmt_trading.Base.{
  ℕ, ◌+◌, Bool, true, false, not, ◌&&◌, ◌||◌, Option, none, some, List, [], ◌∷◌, ◌++◌, map,
  if◌then◌else◌, any_of, ltb, length, keep,
}
use qmt_trading.Base.Int.{ℤ, pos_part}
use qmt_trading.Text.{Text, codes, text_eq, text_lt, prefix, is_empty}
use qmt_trading.Float.{Float, format}
use qmt_trading.Data.Coverage.{CoverageStatus, complete, partial, missing}
use qmt_trading.Data.Coverage

-- A row of data_coverage, by what is read.
pub record CoverageRecord (R : Type 0) : Type 0 where
  pub data_type : Text
  pub status : CoverageStatus
  pub coverage_rate : R
  pub actual_rows : ℕ
  pub checked_at : Text

pub data Freshness : Type 0 where
  fresh stale partly absent unknown : Freshness

-- The arguments of `build_freshness_item`.
pub record Probe (R : Type 0) : Type 0 where
  pub key : Text
  pub name : Text
  pub table_name : Text
  pub latest_time : Option Text
  pub suggestion : Text
  pub target_date : Text
  pub required : Bool
  pub coverage : Option (CoverageRecord R)
  pub fresh_suggestion : Option Text

pub record Item (R : Type 0) : Type 0 where
  pub key : Text
  pub name : Text
  pub table_name : Text
  pub latest_time : Option Text
  pub latest_date : Option Text
  pub target_date : Text
  pub lag_days : Option ℕ
  pub status : Freshness
  pub message : Text
  pub suggestion : Text
  pub coverage_status : Option CoverageStatus
  pub coverage_rate : Option R
  pub coverage_checked_at : Option Text
  pub actual_rows : Option ℕ
  pub coverage_unit : Option Text
  pub coverage_unit_note : Option Text

unfoldable pub coverage_unit : Text → Text
unfolding text_eq
coverage_unit data_type =
    if text_eq data_type (codes "minute_kline") then codes "覆盖单元" else codes "行"

unfoldable pub coverage_unit_note : Text → Text
unfolding text_eq
coverage_unit_note data_type =
    if text_eq data_type (codes "minute_kline")
    then codes "分钟K覆盖单元=股票-交易日，用来判断是否每只股票每天都有分钟数据，不等于1分钟bar原始行数。"
    else if text_eq data_type (codes "daily_kline")
    then codes "日K按实际落库K线行数统计。"
    else codes "按本地 SQLite 表记录数或覆盖检查单位统计。"

abbrev pub latest_date : Option Text → Option Text
latest_date none = none
latest_date (some t) = if is_empty t then none else some (prefix 10 t)

abbrev map_option : {A B : Type 0} → (A → B) → Option A → Option B
map_option f none = none
map_option f (some a) = some (f a)

abbrev lag_from : (Text → Text → Option ℤ) → Text → Option Text → Option ℕ
lag_from days_between target none = none
lag_from days_between target (some day) = map_option pos_part (days_between day target)

unfoldable pub freshness_lag_days : (Text → Text → Option ℤ) → Option Text → Text → Option ℕ
freshness_lag_days days_between latest_time target_date =
    lag_from days_between target_date (latest_date latest_time)

abbrev pub is_covered : CoverageStatus → Bool
is_covered complete = true
is_covered _ = false

abbrev status_word : CoverageStatus → Text
status_word complete = codes "complete"
status_word partial = codes "partial"
status_word missing = codes "missing"
status_word Coverage.failed = codes "failed"

abbrev lags : Freshness → Bool
lags fresh = false
lags partly = false
lags _ = true

-- The status of an account's flow, which may be empty on a day.
abbrev pub if_required : Bool → Freshness → Freshness
if_required true s = s
if_required false s = if lags s then unknown else s

module _ {R : Type 0} where
  abbrev pub by_coverage : Option (CoverageRecord R) → Freshness
  by_coverage none = fresh
  by_coverage (some c) = if is_covered c.status then fresh else partly

  abbrev pub by_day : Text → Option (CoverageRecord R) → Option Text → Freshness
  by_day target coverage none = absent
  by_day target coverage (some day) = if text_lt day target then stale else by_coverage coverage

  abbrev pub status_of : Probe R → Freshness
  status_of p = if_required p.required (by_day p.target_date p.coverage (latest_date p.latest_time))

abbrev suggestion_of : Freshness → Text → Option Text → Text
suggestion_of fresh suggestion (some t) = if is_empty t then suggestion else t
suggestion_of _ suggestion _ = suggestion

module _ {R : Type 0} ⦃F : Float R⦄ where
  abbrev covered_message : Text → Text → Text → Option (CoverageRecord R) → Text
  covered_message name day target none = name ++ codes "：已到目标交易日 " ++ target ++ codes "。"
  covered_message name day target (some c) =
      if is_covered c.status
      then name ++ codes "：已到目标交易日 " ++ target ++ codes "。"
      else name
        ++ codes "已到 "
        ++ day
        ++ codes "，但覆盖率为 "
        ++ format 2 c.coverage_rate
        ++ codes "%，状态 "
        ++ status_word c.status
        ++ codes "。"

  abbrev required_message : Probe R → Option Text → Text
  required_message p none = p.name ++ codes "暂无本地记录。"
  required_message p (some day) =
      if text_lt day p.target_date
      then p.name ++ codes "：最新日期为 " ++ day ++ codes "，落后目标交易日 " ++ p.target_date ++ codes "。"
      else covered_message p.name day p.target_date p.coverage

  abbrev optional_message : Probe R → Option Text → Text
  optional_message p none = p.name ++ codes "暂无本地记录；若账户当天没有委托或成交，这是正常状态。"
  optional_message p (some day) =
      if text_lt day p.target_date
      then p.name
        ++ codes "：最新记录为 "
        ++ day
        ++ codes "；若账户在 "
        ++ p.target_date
        ++ codes " 没有委托或成交，这是正常状态。"
      else required_message p (some day)

  unfoldable pub build_freshness_item : (Text → Text → Option ℤ) → Probe R → Item R
  unfolding text_lt freshness_lag_days coverage_unit coverage_unit_note
  build_freshness_item days_between p =
      let day = latest_date p.latest_time in
      record {
        key = p.key;
        name = p.name;
        table_name = p.table_name;
        latest_time = p.latest_time;
        latest_date = day;
        target_date = p.target_date;
        lag_days = freshness_lag_days days_between p.latest_time p.target_date;
        status = status_of p;
        message = if p.required then required_message p day else optional_message p day;
        suggestion = suggestion_of (status_of p) p.suggestion p.fresh_suggestion;
        coverage_status = map_option (λ c. c.status) p.coverage;
        coverage_rate = map_option (λ c. c.coverage_rate) p.coverage;
        coverage_checked_at = map_option (λ c. c.checked_at) p.coverage;
        actual_rows = map_option (λ c. c.actual_rows) p.coverage;
        coverage_unit = map_option (λ c. coverage_unit c.data_type) p.coverage;
        coverage_unit_note = map_option (λ c. coverage_unit_note c.data_type) p.coverage;
      }

abbrev pub is_fresh : Freshness → Bool
is_fresh fresh = true
is_fresh _ = false

abbrev pub is_behind : Freshness → Bool
is_behind fresh = false
is_behind unknown = false
is_behind _ = true

abbrev pub is_unknown : Freshness → Bool
is_unknown unknown = true
is_unknown _ = false

pub data Overall : Type 0 where
  success warning failed : Overall

abbrev action_if : Bool → Text → List Text
action_if true t = t ∷ []
action_if false t = []

abbrev or_done : List Text → List Text
or_done [] = codes "数据新鲜度已满足当前目标交易日，可继续做数据质量检查或正式回测验收。" ∷ []
or_done (t ∷ ts) = t ∷ ts

module _ {R : Type 0} where
  abbrev pub behind : Text → List (Item R) → Bool
  behind key items = any_of (λ (i : Item R). text_eq i.key key && not (is_fresh i.status)) items

  unfoldable pub build_freshness_next_actions : List (Item R) → List Text
  unfolding text_eq
  build_freshness_next_actions items = or_done (
      action_if (behind (codes "trading_calendar") items) (codes "先同步交易日历，避免同步截止日和回测交易日判断继续停留在旧日期。")
      ++ action_if (behind (codes "daily_kline") items)
          (codes "执行全市场日 K 补齐到最新完成交易日，并复查 2026 日 K 覆盖率。")
      ++ action_if (behind (codes "minute_kline") items)
          (codes "对分钟 K 执行缺失续跑；分钟策略回测必须等覆盖率 complete 后再正式验收。")
      ++ action_if
          (behind (codes "account_snapshot") items || behind (codes "position_snapshot") items)
          (codes "同步账户资金和持仓快照；真实交易判断不能依赖旧账户数据。"))

  unfoldable pub freshness_status_counts : List (Item R) → ℕ × ℕ × Overall
  freshness_status_counts items =
      let stale_count = length (keep (λ (i : Item R). is_behind i.status) items) in
      let warning_count = length (keep (λ (i : Item R). is_unknown i.status) items) in
      (
        stale_count,
        warning_count,
        if ltb 0 stale_count then failed else if ltb 0 warning_count then warning else success,
      )
