-- ===== src/System/Tests.antt =====
-- The theorems on background tasks at two concrete tasks, one of them running.
use qmt_trading.Base.{◌≡◌, refl, ◌≤◌, arith, true, false, none, some, List, [], ◌∷◌, length}
use qmt_trading.Text.{Text, codes}
use qmt_trading.System.Tasks.{
  Task, TaskStatus, running, ended, Report, ok, raise, task_cancelled, get_task, dump_runtime_tasks,
  restore_runtime_tasks,
}
use qmt_trading.System.Tasks.Restore.{HasUniqueIds, restore-dump}
use qmt_trading.System.Service.{
  System, cancel_task, ensure_not_cancelled, finish_task_if_active,
  recover_interrupted_tasks_on_startup, ensure_restore_safe, ensure_no_same_type_active_task,
}
use qmt_trading.System.Service.Traces.{here, next, report, restart, cancel_task_final}
use qmt_trading.System.Service.Recovery.{recovery_unblocks}
use qmt_trading.System.Cleanup.{Tables, cleanup_old_records, raised}

abbrev task : Text → TaskStatus → Text → Task
task id status created_at = record {
  task_id = id;
  task_type = codes "sync_daily";
  status = status;
  progress = 40;
  message = codes "";
  technical_detail = none;
  started_at = some created_at;
  finished_at = none;
  created_at = created_at;
}

abbrev old_running : Task
old_running = task (codes "task_a") running (codes "2024-01-02 10:00:00")

abbrev old_done : Task
old_done = task (codes "task_b") (ended (codes "success")) (codes "2024-01-01 10:00:00")

abbrev tasks : List Task
tasks = old_running ∷ old_done ∷ []

abbrev system : System
system = record { tasks = tasks; effects = []; system_logs = []; operations = [] }

abbrev now : Text
now = codes "2024-06-03 10:00:00"

abbrev done_report : Report
done_report = record {
  status = ended (codes "success");
  progress = 100;
  message = codes "done";
  technical_detail = none;
  finished = true;
}

abbrev detail : Task → Text → Text
detail t at = t.message

found_running : get_task (codes "task_a") tasks ≡ ok old_running
unfolding get_task qmt_trading.Text.text_eq
found_running = refl

-- After the cancellation a worker reports success and the process restarts.
abbrev reported : System
reported =
    (finish_task_if_active (codes "task_a") done_report now
      (cancel_task (codes "task_a") now system).1).1

abbrev restarted : System
restarted = (recover_interrupted_tasks_on_startup detail now reported).1

cancel_task_final_example :
    (ensure_not_cancelled (codes "task_a") restarted ≡ raise task_cancelled)
    × (finish_task_if_active (codes "task_a") done_report now restarted ≡ (false, restarted))
cancel_task_final_example =
    cancel_task_final (codes "task_a") now old_running system restarted found_running refl
      (next (next here (report (codes "task_a") done_report now refl)) (restart detail now refl))
      done_report now

recovery_unblocks_example :
    let after = (recover_interrupted_tasks_on_startup detail now system).1 in
    (ensure_no_same_type_active_task (codes "sync_daily") after ≡ ok tt)
    × (ensure_restore_safe none after ≡ ok tt)
recovery_unblocks_example = recovery_unblocks detail now (codes "sync_daily") none system

unique : HasUniqueIds tasks
unfolding qmt_trading.Text.text_eq
unique = (refl, (refl, tt))

few : length tasks ≤ 10000
few = omega arith

restore-dump_example :
    get_task
      (codes "task_a")
      (restore_runtime_tasks (dump_runtime_tasks 10000 tasks) (old_done ∷ []))
    ≡ ok old_running
restore-dump_example =
    restore-dump (codes "task_a") tasks (old_done ∷ []) old_running unique few found_running

abbrev tables : Tables
tables = record {
  system_log = record { id = 1; created_at = codes "2024-01-02 10:00:00" } ∷ [];
  operation_log = [];
  sync_log = record { id = 1; created_at = codes "2024-06-02 10:00:00" } ∷ [];
  execution_log = [];
  runtime_task = tasks;
}

-- The old logs are gone also where the archive cannot be written.
cleaned_unwritten :
    cleanup_old_records (codes "2024-03-01") (codes "2024-03-01") false tables
    ≡ (raised, record tables { system_log = []; runtime_task = old_running ∷ [] })
unfolding cleanup_old_records qmt_trading.System.Cleanup.purge qmt_trading.Text.text_lt
cleaned_unwritten = refl
