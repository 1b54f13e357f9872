-- ===== src/System/Cleanup.antt =====
-- SystemRepository.cleanup_old_records (backend/repositories/system/system_repository.py) on the dates
-- and the states of the rows: each table is split into the rows that go to the archive and the rows
-- that stay. Writing the archive is I/O.
use qmt_trading.Base.{ℕ, Bool, not, ◌&&◌, ◌||◌, List, [], ◌∷◌, keep, length, ltb, if◌then◌else◌}
use qmt_trading.Text.{Text, text_lt, prefix}
use qmt_trading.System.Tasks.{Task, is_active}

-- A row of a log table, by its created_at.
pub record Dated : Type 0 where
  pub id : ℕ
  pub created_at : Text

pub record Tables : Type 0 where
  pub system_log : List Dated
  pub operation_log : List Dated
  pub sync_log : List Dated
  pub execution_log : List Dated
  pub runtime_task : List Task

-- `substr(created_at, 1, 10) < cutoff`
abbrev pub is_old : Text → Text → Bool
is_old cutoff created_at = text_lt (prefix 10 created_at) cutoff

abbrev pub old_log : Text → Dated → Bool
old_log cutoff d = is_old cutoff d.created_at

-- The rows of runtime_task that may go are not active.
abbrev pub old_task : Text → Task → Bool
old_task cutoff t = is_old cutoff t.created_at && not (is_active t.status)

-- SELECT * FROM table WHERE old.
abbrev pub select_old : {A : Type 0} → (A → Bool) → List A → List A
select_old old rows = keep old rows

-- DELETE FROM table WHERE old.
abbrev pub delete_old : {A : Type 0} → (A → Bool) → List A → List A
delete_old old rows = keep (λ r. not (old r)) rows

abbrev delete_if_any : {A : Type 0} → (A → Bool) → List A → List A → List A
delete_if_any old [] rows = rows
delete_if_any old (found ∷ more) rows = delete_old old rows

-- The rows that the query finds, and the table after the deletion, which runs if it finds any.
unfoldable pub purge : {A : Type 0} → (A → Bool) → List A → List A × List A
purge old rows = let found = select_old old rows in (found, delete_if_any old found rows)

-- What the call ends with: no archive where nothing was deleted, the tables in the archive, or the
-- exception of the file.
pub data Outcome : Type 0 where
  no_archive : Outcome
  archived : Tables → Outcome
  raised : Outcome

abbrev deleted_any : Tables → Bool
deleted_any t =
    ltb 0 (length t.system_log)
    || ltb 0 (length t.operation_log)
    || ltb 0 (length t.sync_log)
    || ltb 0 (length t.execution_log)
    || ltb 0 (length t.runtime_task)

abbrev write_archive : Bool → Tables → Outcome
write_archive can_write found =
    if deleted_any found then (if can_write then archived found else raised) else no_archive

unfoldable pub cleanup_old_records : Text → Text → Bool → Tables → Outcome × Tables
unfolding purge text_lt
cleanup_old_records log_cutoff task_cutoff can_write t =
    let (a1, k1) = purge (old_log log_cutoff) t.system_log in
    let (a2, k2) = purge (old_log log_cutoff) t.operation_log in
    let (a3, k3) = purge (old_log log_cutoff) t.sync_log in
    let (a4, k4) = purge (old_log log_cutoff) t.execution_log in
    let (a5, k5) = purge (old_task task_cutoff) t.runtime_task in
    (
      write_archive can_write (record {
        system_log = a1;
        operation_log = a2;
        sync_log = a3;
        execution_log = a4;
        runtime_task = a5;
      }),
      record {
        system_log = k1;
        operation_log = k2;
        sync_log = k3;
        execution_log = k4;
        runtime_task = k5;
      },
    )
