-- ===== src/Trading/Status/Words.antt =====
-- The words for the states, read back.
use qmt_trading.Base.{◌≡◌, refl, some}
use qmt_trading.Trading.Status.{
  OrderStatus, unsubmitted, submitted, reported, part_filled, all_filled, cancelled, rejected,
  failed, unsynced, word, map_order_status,
}

-- Mapping a state's own word gives the state: the map is idempotent, so what the database holds is
-- not changed by being mapped again.
pub map_order_status-word : (status : OrderStatus) → map_order_status (some (word status)) ≡ status
unfolding map_order_status word
map_order_status-word unsubmitted = refl
map_order_status-word submitted = refl
map_order_status-word reported = refl
map_order_status-word part_filled = refl
map_order_status-word all_filled = refl
map_order_status-word cancelled = refl
map_order_status-word rejected = refl
map_order_status-word failed = refl
map_order_status-word unsynced = refl
