-- ===== src/System/Service.antt =====
-- SystemService on tasks (backend/services/system/system_service.py): cancelling, the guards that other
-- services call, and the recovery when the process starts.
pub mod Traces
pub mod Recovery
use qmt_trading.Base.{
  ℕ, Bool, true, false, not, Option, none, some, List, [], ◌∷◌, ◌++◌, map, if◌then◌else◌, length,
}
use qmt_trading.Text.{Text, codes, text_eq, starts_with, is_empty}
use qmt_trading.Value.{show_ℕ}
use qmt_trading.Trading.Tables.{LogRow, OperationRow}
use qmt_trading.System.Tasks.{
  Task, TaskStatus, cancelled, is_active, Report, Result, ok, raise, task_cancelled,
  task_already_running, restore_busy, get_task, is_task_cancelled, update_task,
  update_task_if_not_cancelled, list_active_tasks, find_active_task_by_type,
  mark_active_tasks_interrupted,
}

-- The record of another table that belongs to a task, by the type of the task.
pub data Related : Type 0 where
  sync_record strategy_run backtest_run no_record : Related

-- What is done to such records.
pub data Effect : Type 0 where
  cancel_related fail_related : Related → Text → Effect

-- The tables that the calls change.
pub record System : Type 0 where
  pub tasks : List Task
  pub effects : List Effect
  pub system_logs : List LogRow
  pub operations : List OperationRow

unfoldable pub related_of : Text → Related
unfolding starts_with text_eq
related_of task_type =
    if starts_with (codes "sync_") task_type
    then sync_record
    else if text_eq task_type (codes "strategy_run")
    then strategy_run
    else if text_eq task_type (codes "backtest_run")
    then backtest_run
    else no_record

abbrev pub cancelling : ℕ → Report
cancelling progress = record {
  status = cancelled;
  progress = progress;
  message = codes "任务已取消。";
  technical_detail = none;
  finished = true;
}

-- `cancel_task` from the row that it has read.
unfoldable pub cancel_read : Task → Text → Text → System → Result Task × System
unfolding related_of update_task get_task
cancel_read t id now s =
    let s' : System = record s {
      tasks = update_task id (cancelling t.progress) now s.tasks;
      effects = cancel_related (related_of t.task_type) id ∷ s.effects;
      operations = record { action = codes "取消任务"; target_id = id; success = true } ∷ s.operations;
    } in
    if is_active t.status then (get_task id s'.tasks, s') else (ok t, s)

abbrev pub cancel_found : Result Task → Text → Text → System → Result Task × System
cancel_found (raise e) id now s = (raise e, s)
cancel_found (ok t) id now s = cancel_read t id now s

unfoldable pub cancel_task : Text → Text → System → Result Task × System
unfolding get_task cancel_read
cancel_task id now s = cancel_found (get_task id s.tasks) id now s

unfoldable pub ensure_not_cancelled : Text → System → Result (Unit {0})
unfolding is_task_cancelled
ensure_not_cancelled id s = if is_task_cancelled id s.tasks then raise task_cancelled else ok tt

unfoldable pub finish_task_if_active : Text → Report → Text → System → Bool × System
unfolding update_task_if_not_cancelled
finish_task_if_active id r now s =
    let (hit, tasks) = update_task_if_not_cancelled id r now s.tasks in
    (hit, record s { tasks = tasks })

abbrev pub none_left : List Task → Result (Unit {0})
none_left [] = ok tt
none_left (t ∷ ts) = raise restore_busy

abbrev pub not_running : Option Task → Result (Unit {0})
not_running none = ok tt
not_running (some t) = raise task_already_running

unfoldable pub ensure_restore_safe : Option Text → System → Result (Unit {0})
unfolding list_active_tasks
ensure_restore_safe exclude s = none_left (list_active_tasks exclude 100 s.tasks)

unfoldable pub ensure_no_same_type_active_task : Text → System → Result (Unit {0})
unfolding find_active_task_by_type
ensure_no_same_type_active_task task_type s =
    not_running (find_active_task_by_type task_type none s.tasks)

abbrev fail_each : List Task → List Effect → List Effect
fail_each [] effects = effects
fail_each (t ∷ ts) effects =
    fail_each ts (fail_related (related_of t.task_type) t.task_id ∷ effects)

abbrev pub recovered : List Task → System → System
recovered [] s = s
recovered (t ∷ ts) s =
    let message = codes "服务重启导致 " ++ show_ℕ (length (t ∷ ts)) ++ codes " 个任务中断，已自动标记为失败。" in
    record s {
      effects = fail_each (t ∷ ts) s.effects;
      system_logs =
          record { local_order_id = some t.task_id; level = codes "error"; message = message }
          ∷ s.system_logs;
      operations =
          record { action = codes "启动任务扫尾"; target_id = t.task_id; success = true } ∷ s.operations;
    }

unfoldable pub recover_interrupted_tasks_on_startup :
    (Task → Text → Text) → Text → System → List Task × System
unfolding mark_active_tasks_interrupted related_of show_ℕ
recover_interrupted_tasks_on_startup detail now s =
    let (swept, tasks) = mark_active_tasks_interrupted detail now s.tasks in
    (swept, recovered swept (record s { tasks = tasks }))
