-- ===== src/System/Service/Recovery.antt =====
-- The tasks after the recovery when the process starts.
use qmt_trading.Base.{
  ◌≡◌, refl, ap, ◌∙◌, inl, inr, Bool, true, Option, none, List, [], ◌∷◌, map, keep, arith,
  Bool-cases, take, sort_by,
}
use qmt_trading.Text.{Text, text_lt}
use qmt_trading.Trading.Repository.{newest}
use qmt_trading.System.Tasks.{
  Task, ok, is_active, swept, mark_active_tasks_interrupted, list_active_tasks,
  find_active_task_by_type,
}
use qmt_trading.System.Service.{
  System, not_running, none_left, recover_interrupted_tasks_on_startup, ensure_restore_safe,
  ensure_no_same_type_active_task,
}
use qmt_trading.System.Service.Traces.{recovered-tasks}

-- No task passes a test that asks for an active one.
none_active :
    (p : Task → Bool) (detail : Task → Text → Text) (now : Text) (tasks : List Task)
    → ((t : Task) → p t ≡ true → is_active t.status ≡ true)
    → keep p (map (swept detail now) tasks) ≡ []
none_active p detail now [] h = refl
none_active p detail now (t ∷ ts) h = elim (Bool-cases (p (swept detail now t))) [
  | inr e ↦ rw (e, none_active p detail now ts h) refl
  | inl e ↦ let active = h (swept detail now t) e in absurd (ground arith)
]

recovery-tasks :
    (detail : Task → Text → Text) (now : Text) (s : System)
    → (recover_interrupted_tasks_on_startup detail now s).1.tasks ≡ map (swept detail now) s.tasks
unfolding recover_interrupted_tasks_on_startup mark_active_tasks_interrupted
recovery-tasks detail now s = recovered-tasks _ _

find_active-swept :
    (detail : Task → Text → Text) (now task_type : Text) (tasks : List Task)
    → find_active_task_by_type task_type none (map (swept detail now) tasks) ≡ none
unfolding find_active_task_by_type newest
find_active-swept detail now task_type tasks =
    ap (newest (λ (t : Task). t.created_at)) (none_active _ detail now tasks (λ t h. ground arith))

list_active-swept :
    (detail : Task → Text → Text) (now : Text) (exclude : Option Text) (tasks : List Task)
    → list_active_tasks exclude 100 (map (swept detail now) tasks) ≡ []
unfolding list_active_tasks sort_by
list_active-swept detail now exclude tasks =
    ap (λ ts. take 100 (sort_by (λ a b. text_lt b.created_at a.created_at) ts))
      (none_active _ detail now tasks (λ t h. ground arith))

-- After the recovery a task of any type can be started, and a backup can be restored: the guards
-- that refuse these while a task is active let them pass.
pub recovery_unblocks :
    (detail : Task → Text → Text) (now task_type : Text) (exclude : Option Text) (s : System)
    → let after = (recover_interrupted_tasks_on_startup detail now s).1 in
      (ensure_no_same_type_active_task task_type after ≡ ok tt)
      × (ensure_restore_safe exclude after ≡ ok tt)
unfolding ensure_no_same_type_active_task ensure_restore_safe
recovery_unblocks detail now task_type exclude s = (
  ap not_running (
      ap (find_active_task_by_type task_type none) (recovery-tasks detail now s)
      ∙ find_active-swept detail now task_type s.tasks),
  ap none_left (
      ap (list_active_tasks exclude 100) (recovery-tasks detail now s)
      ∙ list_active-swept detail now exclude s.tasks),
)
