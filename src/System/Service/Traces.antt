-- ===== src/System/Service/Traces.antt =====
-- Runs of the service: what workers, users and restarts do to the tasks, in any order. The cleanup of
-- old records and the restoring of a backup are no steps.
use qmt_trading.Base.{
  ◌≡◌, refl, ap, inl, inr, true, false, List, [], ◌∷◌, arith, any_of, Bool-cases,
}
use qmt_trading.Text.{Text}
use qmt_trading.System.Tasks.{
  Task, Report, Result, ok, raise, task_cancelled, is_active, has_id, get_task, new_task,
  create_task, ensure_task_record, update_task, update_task_if_not_cancelled,
  mark_active_tasks_interrupted, swept,
}
use qmt_trading.System.Tasks.Update.{
  IsStopped, map-IsStopped, guarded-Calm, cancelling-Calm, swept-Calm, guarded_still,
  update_task-IsStopped, get_task-known, is_task_cancelled-IsStopped, new_task-IsStopped,
  ensure_task_record-IsStopped,
}
use qmt_trading.System.Service.{
  System, cancel_read, cancel_task, cancel_found, cancelling, ensure_not_cancelled,
  finish_task_if_active, recover_interrupted_tasks_on_startup, recovered,
}

pub data Step (s t : System) : Type 0 where
  report :
      (id : Text) (r : Report) (now : Text) → t ≡ (finish_task_if_active id r now s).1 → Step s t
  cancel : (id now : Text) → t ≡ (cancel_task id now s).1 → Step s t
  create :
      (id task_type message now : Text) (tasks : List Task)
      → create_task id task_type message now s.tasks ≡ ok tasks
      → t ≡ record s { tasks = tasks }
      → Step s t
  ensure :
      (id task_type message now : Text)
      → t ≡ record s { tasks = ensure_task_record id task_type message now s.tasks }
      → Step s t
  restart :
      (detail : Task → Text → Text) (now : Text)
      → t ≡ (recover_interrupted_tasks_on_startup detail now s).1
      → Step s t

pub data Run (s : System) : System → Type 0 where
  here : Run s s
  next : {t u : System} → Run s t → Step t u → Run s u

pub recovered-tasks : (ts : List Task) (s : System) → (recovered ts s).tasks ≡ s.tasks
recovered-tasks [] s = refl
recovered-tasks (t ∷ ts) s = refl

report-IsStopped :
    (id other : Text) (r : Report) (now : Text) (s : System)
    → IsStopped id s.tasks
    → IsStopped id (finish_task_if_active other r now s).1.tasks
unfolding finish_task_if_active update_task_if_not_cancelled
report-IsStopped id other r now s h = map-IsStopped id _ s.tasks (guarded-Calm other r now) h

cancel_read-IsStopped :
    (id other now : Text) (t : Task) (s : System)
    → IsStopped id s.tasks
    → IsStopped id (cancel_read t other now s).1.tasks
unfolding cancel_read update_task
cancel_read-IsStopped id other now t s h = elim (Bool-cases (is_active t.status)) [
  | inl e ↦
      rw e (map-IsStopped id _ s.tasks (cancelling-Calm other (cancelling t.progress) now refl) h)
  | inr e ↦ rw e h
]

cancel_found-IsStopped :
    (r : Result Task) (id other now : Text) (s : System)
    → IsStopped id s.tasks
    → IsStopped id (cancel_found r other now s).1.tasks
cancel_found-IsStopped (raise x) id other now s h = h
cancel_found-IsStopped (ok t) id other now s h = cancel_read-IsStopped id other now t s h

create_task-IsStopped :
    (id other task_type message now : Text) (tasks rest : List Task)
    → create_task other task_type message now tasks ≡ ok rest
    → IsStopped id tasks
    → IsStopped id rest
unfolding create_task
create_task-IsStopped id other task_type message now tasks rest e h =
    elim (Bool-cases (any_of (has_id other) tasks)) [
      | inl k ↦ absurd (ground arith)
      | inr k ↦
          let same : new_task other task_type message now ∷ tasks ≡ rest = ground arith in
          rw (← same) (new_task-IsStopped id other task_type message now tasks k h)
    ]

Step-IsStopped : {s t : System} (id : Text) → Step s t → IsStopped id s.tasks → IsStopped id t.tasks
unfolding cancel_task recover_interrupted_tasks_on_startup mark_active_tasks_interrupted
Step-IsStopped {s} id (report other r now e) h = rw e (report-IsStopped id other r now s h)
Step-IsStopped {s} id (cancel other now e) h =
    rw e (cancel_found-IsStopped (get_task other s.tasks) id other now s h)
Step-IsStopped {s} id (create other task_type message now tasks made e) h =
    rw e (create_task-IsStopped id other task_type message now s.tasks tasks made h)
Step-IsStopped {s} id (ensure other task_type message now e) h =
    rw e (ensure_task_record-IsStopped id other task_type message now s.tasks h)
Step-IsStopped {s} id (restart detail now e) h =
    rw (e, recovered-tasks _ _)
      (map-IsStopped id (swept detail now) s.tasks (swept-Calm detail now) h)

Run-IsStopped : {s t : System} (id : Text) → IsStopped id s.tasks → Run s t → IsStopped id t.tasks
Run-IsStopped id h here = h
Run-IsStopped id h (next run step) = Step-IsStopped id step (Run-IsStopped id h run)

cancel_read-stops :
    (id now : Text) (t : Task) (s : System)
    → any_of (has_id id) s.tasks ≡ true
    → is_active t.status ≡ true
    → IsStopped id (cancel_read t id now s).1.tasks
unfolding cancel_read
cancel_read-stops id now t s known active =
    rw active (update_task-IsStopped id (cancelling t.progress) now s.tasks refl known)

cancel_read-eq :
    (id now : Text) (t : Task) (s : System)
    → get_task id s.tasks ≡ ok t
    → cancel_task id now s ≡ cancel_read t id now s
unfolding cancel_task
cancel_read-eq id now t s e = ap (λ r. cancel_found r id now s) e

-- A cancellation of an active task is final: after any run of reports of workers, cancellations, new
-- tasks and restarts, the worker's next check raises the cancellation, and a report of it hits no row
-- and changes nothing.
pub cancel_task_final :
    (id now : Text) (task : Task) (s t : System)
    → get_task id s.tasks ≡ ok task
    → is_active task.status ≡ true
    → Run (cancel_task id now s).1 t
    → (r : Report) (later : Text)
    → (ensure_not_cancelled id t ≡ raise task_cancelled)
      × (finish_task_if_active id r later t ≡ (false, t))
unfolding ensure_not_cancelled finish_task_if_active update_task_if_not_cancelled
cancel_task_final id now task s t read active run r later =
    let stopped = cancel_read-stops id now task s (get_task-known id s.tasks task read) active in
    let (known, still) = Run-IsStopped id (rw (cancel_read-eq id now task s read) stopped) run in
    (
      rw (is_task_cancelled-IsStopped id t.tasks (known, still)) refl,
      rw (still, guarded_still id r later t.tasks still) refl,
    )
