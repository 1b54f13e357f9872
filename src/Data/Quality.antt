-- ===== src/Data/Quality.antt =====
-- backend/services/data_center/data_center_quality.py: the results of the quality checks on the tables.
use qmt_trading.Base.{ℕ, Option, none, some, [], ◌∷◌, ◌++◌, if◌then◌else◌, ◌==◌}
use qmt_trading.Text.{Text, codes, text_eq, is_empty}
use qmt_trading.Dict.{Dict, lookup}
use qmt_trading.Value.{show_ℕ}

pub data QualityStatus : Type 0 where
  success warning failed : QualityStatus

pub record QualityResult : Type 0 where
  pub check_type : Text
  pub target_table : Text
  pub status : QualityStatus
  pub message : Text
  pub suggestion : Option Text

-- The tables that may be empty on a day, with what is said then.
abbrev pub optional_flow_tables : Dict Text
optional_flow_tables =
    (codes "order_record", codes "委托记录为空；若当前账户当天没有委托，这是正常状态。")
    ∷ (codes "trade_record", codes "成交记录为空；若当前账户当天没有成交，这是正常状态。")
    ∷ []

abbrev counted : Text → Text → ℕ → QualityResult
counted table label count = record {
  check_type = codes "数据为空";
  target_table = table;
  status = if count == 0 then warning else success;
  message = label ++ codes " 当前共有 " ++ show_ℕ count ++ codes " 条记录。";
  suggestion = if count == 0 then some (codes "请到数据同步中同步" ++ label ++ codes "。") else none;
}

abbrev allowed_empty : Text → Text → Text → QualityResult
allowed_empty check_type table message = record {
  check_type = check_type;
  target_table = table;
  status = success;
  message = message;
  suggestion = none;
}

unfoldable pub build_table_count_result : Text → Text → ℕ → QualityResult
unfolding lookup text_eq show_ℕ
build_table_count_result table label count = elim (lookup table optional_flow_tables) [
  | none ↦ counted table label count
  | some message ↦
      if count == 0 then allowed_empty (codes "数据为空") table message else counted table label count
]

-- `latest` is none where the source has None or "".
abbrev timed : Text → Text → Option Text → Text → QualityResult
timed table label none suggestion = record {
  check_type = codes "更新时间";
  target_table = table;
  status = warning;
  message = label ++ codes "最近时间：暂无。";
  suggestion = some suggestion;
}
timed table label (some latest) suggestion = record {
  check_type = codes "更新时间";
  target_table = table;
  status = success;
  message = label ++ codes "最近时间：" ++ latest ++ codes "。";
  suggestion = none;
}

abbrev no_time : Text → Text → QualityResult
no_time table label =
    allowed_empty (codes "更新时间") table (label ++ codes "最近时间：暂无；若当前账户当天没有委托或成交，这是正常状态。")

unfoldable pub build_time_result : Text → Text → Option Text → Text → QualityResult
unfolding lookup text_eq
build_time_result table label none suggestion = elim (lookup table optional_flow_tables) [
  | none ↦ timed table label none suggestion
  | some message ↦ no_time table label
]
build_time_result table label (some latest) suggestion = timed table label (some latest) suggestion

abbrev scoped : Text → Option Text → Text
scoped label none = label
scoped label (some scope) =
    if is_empty scope then label else label ++ codes "（当前账户 " ++ scope ++ codes "）"

unfoldable pub build_duplicate_result : Text → Text → Text → ℕ → Option Text → QualityResult
unfolding show_ℕ
build_duplicate_result check_type table label duplicate_count account_scope = record {
  check_type = check_type;
  target_table = table;
  status = if duplicate_count == 0 then success else failed;
  message = scoped label account_scope ++ codes "重复键组数：" ++ show_ℕ duplicate_count ++ codes "。";
  suggestion = if duplicate_count == 0 then none else some (codes "请检查唯一索引和同步来源，避免重复写入。");
}
