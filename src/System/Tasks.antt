-- ===== src/System/Tasks.antt =====
-- The table runtime_task (backend/core/database.py), newest row first, and the methods of
-- SystemRepository on it (backend/repositories/system/system_repository.py).
pub mod Update
pub mod Restore
use qmt_trading.Base.{
  ℕ, Bool, true, false, not, ◌&&◌, ◌||◌, Option, none, some, List, [], ◌∷◌, map, if◌then◌else◌,
  find_first, any_of, keep, take, sort_by,
}
use qmt_trading.Text.{Text, codes, text_eq, text_lt, is_empty}
use qmt_trading.Trading.Repository.{newest}

-- runtime_task.status; `ended` is a word that the code only writes at the end, as success or failed.
pub data TaskStatus : Type 0 where
  pending running cancelled : TaskStatus
  ended : Text → TaskStatus

-- `status IN ('running', 'pending')`
abbrev pub is_active : TaskStatus → Bool
is_active pending = true
is_active running = true
is_active _ = false

abbrev pub is_cancelled : TaskStatus → Bool
is_cancelled cancelled = true
is_cancelled _ = false

pub record Task : Type 0 where
  pub task_id : Text
  pub task_type : Text
  pub status : TaskStatus
  pub progress : ℕ
  pub message : Text
  pub technical_detail : Option Text
  pub started_at : Option Text
  pub finished_at : Option Text
  pub created_at : Text

-- What a worker reports: the columns that an update writes.
pub record Report : Type 0 where
  pub status : TaskStatus
  pub progress : ℕ
  pub message : Text
  pub technical_detail : Option Text
  pub finished : Bool

-- `ConfigError` and the other exceptions by their cause.
pub data TaskError : Type 0 where
  task_not_found task_cancelled task_already_running restore_busy integrity : TaskError

pub data Result (A : Type 0) : Type 0 where
  ok : A → Result A
  raise : TaskError → Result A

abbrev pub has_id : Text → Task → Bool
has_id id t = text_eq t.task_id id

abbrev pub written : Report → Text → Task → Task
written r now t = record t {
  status = r.status;
  progress = r.progress;
  message = r.message;
  technical_detail = r.technical_detail;
  finished_at = if r.finished then some now else t.finished_at;
}

abbrev pub found : Option Task → Result Task
found none = raise task_not_found
found (some t) = ok t

abbrev pub found_cancelled : Option Task → Bool
found_cancelled none = false
found_cancelled (some t) = is_cancelled t.status

unfoldable pub get_task : Text → List Task → Result Task
get_task id tasks = found (find_first (has_id id) tasks)

unfoldable pub is_task_cancelled : Text → List Task → Bool
is_task_cancelled id tasks = found_cancelled (find_first (has_id id) tasks)

abbrev pub new_task : Text → Text → Text → Text → Task
new_task id task_type message now = record {
  task_id = id;
  task_type = task_type;
  status = running;
  progress = 0;
  message = message;
  technical_detail = none;
  started_at = some now;
  finished_at = none;
  created_at = now;
}

-- INSERT under UNIQUE(task_id); `id` is the number that the call draws.
unfoldable pub create_task : Text → Text → Text → Text → List Task → Result (List Task)
create_task id task_type message now tasks =
    if any_of (has_id id) tasks
    then raise integrity
    else ok (new_task id task_type message now ∷ tasks)

unfoldable pub ensure_task_record : Text → Text → Text → Text → List Task → List Task
ensure_task_record id task_type message now tasks =
    if any_of (has_id id) tasks then tasks else new_task id task_type message now ∷ tasks

-- UPDATE ... WHERE task_id = ?
unfoldable pub update_task : Text → Report → Text → List Task → List Task
update_task id r now tasks = map (λ t. if has_id id t then written r now t else t) tasks

abbrev pub may_write : Text → Task → Bool
may_write id t = has_id id t && not (is_cancelled t.status)

-- UPDATE ... WHERE task_id = ? AND status != 'cancelled', and whether a row was hit.
unfoldable pub update_task_if_not_cancelled : Text → Report → Text → List Task → Bool × List Task
update_task_if_not_cancelled id r now tasks =
    (any_of (may_write id) tasks, map (λ t. if may_write id t then written r now t else t) tasks)

abbrev pub other_than : Option Text → Task → Bool
other_than none t = true
other_than (some id) t = is_empty id || not (has_id id t)

-- ORDER BY created_at DESC LIMIT ?
unfoldable pub list_active_tasks : Option Text → ℕ → List Task → List Task
unfolding sort_by text_lt
list_active_tasks exclude limit tasks = take limit (
    sort_by (λ a b. text_lt b.created_at a.created_at)
      (keep (λ t. is_active t.status && other_than exclude t) tasks))

unfoldable pub find_active_task_by_type : Text → Option Text → List Task → Option Task
unfolding newest text_eq
find_active_task_by_type task_type exclude tasks =
    newest (λ (t : Task). t.created_at)
      (keep (λ t. text_eq t.task_type task_type && is_active t.status && other_than exclude t)
        tasks)

abbrev pub interruption : Text
interruption = codes "服务重启导致任务中断，请重新创建任务。"

-- `detail` is json.dumps of the record of the interruption.
abbrev pub interrupted : (Task → Text → Text) → Text → Task → Task
interrupted detail now t = record t {
  status = ended (codes "failed");
  progress = 100;
  message = interruption;
  technical_detail = some (detail t now);
  finished_at = elim t.finished_at [ none ↦ some now | some at ↦ some at ];
}

abbrev pub swept : (Task → Text → Text) → Text → Task → Task
swept detail now t = if is_active t.status then interrupted detail now t else t

-- The rows that it returns, by ORDER BY created_at DESC, and the table.
unfoldable pub mark_active_tasks_interrupted :
    (Task → Text → Text) → Text → List Task → List Task × List Task
unfolding sort_by text_lt
mark_active_tasks_interrupted detail now tasks = (
  map (interrupted detail now) (
      sort_by (λ a b. text_lt b.created_at a.created_at)
        (keep (λ (t : Task). is_active t.status) tasks)),
  map (swept detail now) tasks,
)

-- ORDER BY id DESC LIMIT ?, the rows being kept in that order.
unfoldable pub dump_runtime_tasks : ℕ → List Task → List Task
dump_runtime_tasks limit tasks = take limit tasks

-- INSERT ... ON CONFLICT(task_id) DO UPDATE of every column.
unfoldable pub upsert_task : Task → List Task → List Task
upsert_task r tasks =
    if any_of (has_id r.task_id) tasks
    then map (λ t. if has_id r.task_id t then r else t) tasks
    else r ∷ tasks

unfoldable pub restore_runtime_tasks : List Task → List Task → List Task
unfolding upsert_task
restore_runtime_tasks [] tasks = tasks
restore_runtime_tasks (r ∷ rows) tasks = restore_runtime_tasks rows (upsert_task r tasks)
