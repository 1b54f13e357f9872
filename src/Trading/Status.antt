-- ===== src/Trading/Status.antt =====
-- Order states (backend/models/trading_models.py) and the map from QMT's words to them
-- (backend/adapters/qmt/order_status_mapper.py).
pub mod Words
use qmt_trading.Base.{Bool, true, false, Option, none, some, List, [], ◌∷◌, if◌then◌else◌}
use qmt_trading.Text.{Text, codes, strip, lower, is_empty, text_eq}
use qmt_trading.Dict.{Dict, lookup}

-- ORDER_STATUSES: 待提交 已提交 已报 部分成交 全部成交 已撤 废单 失败 待同步.
pub data OrderStatus : Type 0 where
  unsubmitted submitted reported part_filled all_filled cancelled rejected failed unsynced :
      OrderStatus

-- ACTIVE_ORDER_STATUSES, which CANCELABLE_ORDER_STATUSES equals.
abbrev pub is_active : OrderStatus → Bool
is_active unsubmitted = true
is_active submitted = true
is_active reported = true
is_active part_filled = true
is_active _ = false

-- `status NOT IN ('失败', '废单', '已撤')`
abbrev pub is_live : OrderStatus → Bool
is_live failed = false
is_live rejected = false
is_live cancelled = false
is_live _ = true

-- The Chinese word that the source writes for a state.
unfoldable pub word : OrderStatus → Text
word unsubmitted = codes "待提交"
word submitted = codes "已提交"
word reported = codes "已报"
word part_filled = codes "部分成交"
word all_filled = codes "全部成交"
word cancelled = codes "已撤"
word rejected = codes "废单"
word failed = codes "失败"
word unsynced = codes "待同步"

-- STATUS_MAP
unfoldable pub status_map : Dict OrderStatus
status_map =
    (codes "pending", unsubmitted)
    ∷ (codes "created", unsubmitted)
    ∷ (codes "submitted", submitted)
    ∷ (codes "submit", submitted)
    ∷ (codes "accepted", reported)
    ∷ (codes "reported", reported)
    ∷ (codes "entrusted", reported)
    ∷ (codes "partial_filled", part_filled)
    ∷ (codes "part_filled", part_filled)
    ∷ (codes "partially_filled", part_filled)
    ∷ (codes "filled", all_filled)
    ∷ (codes "all_filled", all_filled)
    ∷ (codes "cancelled", cancelled)
    ∷ (codes "canceled", cancelled)
    ∷ (codes "rejected", rejected)
    ∷ (codes "invalid", rejected)
    ∷ (codes "failed", failed)
    ∷ (codes "error", failed)
    ∷ (codes "unknown", unsynced)
    ∷ (codes "待提交", unsubmitted)
    ∷ (codes "已提交", submitted)
    ∷ (codes "已报", reported)
    ∷ (codes "已成", all_filled)
    ∷ (codes "部成", part_filled)
    ∷ (codes "部分成交", part_filled)
    ∷ (codes "全部成交", all_filled)
    ∷ (codes "已撤", cancelled)
    ∷ (codes "废单", rejected)
    ∷ (codes "失败", failed)
    ∷ (codes "未知", unsynced)
    ∷ (codes "待同步", unsynced)
    ∷ []

unfoldable pub map_order_status : Option Text → OrderStatus
unfolding lookup status_map strip lower text_eq
map_order_status none = unsynced
map_order_status (some qmt_status) =
    let normalized = strip qmt_status in
    if is_empty qmt_status then unsynced else elim (lookup normalized status_map) [
      | some status ↦ status
      | none ↦ elim (lookup (lower normalized) status_map) [
        | some status ↦ status
        | none ↦ unsynced
      ]
    ]
