-- ===== src/System/Tasks/Restore.antt =====
-- Tasks carried over the restoring of a backup.
use qmt_trading.Base.{
  ℕ, ◌≤◌, ◌≡◌, refl, sym, ap, ◌∙◌, inl, inr, true, false, Option, none, some, List, [], ◌∷◌, map,
  any_of, find_first, Bool-cases, if◌then◌else◌, arith, length, take, zero, suc,
}
use qmt_trading.Text.{Text, text_eq}
use qmt_trading.Text.Order.{text_eq_iff}
use qmt_trading.System.Tasks.{
  Task, ok, has_id, found, get_task, dump_runtime_tasks, upsert_task, restore_runtime_tasks,
}

-- UNIQUE(task_id)
abbrev pub HasUniqueIds : List Task → Type 0
HasUniqueIds [] = Unit
HasUniqueIds (t ∷ ts) = (any_of (has_id t.task_id) ts ≡ false) × HasUniqueIds ts

abbrev over : Task → Task → Task
over r t = if has_id r.task_id t then r else t

has_id-same : (r t : Task) (id : Text) → has_id r.task_id t ≡ true → has_id id r ≡ has_id id t
has_id-same r t id h = ap (λ i. text_eq i id) (sym ((text_eq_iff t.task_id r.task_id).0 h))

find-over :
    (r : Task) (id : Text) (tasks : List Task)
    → has_id id r ≡ true
    → any_of (has_id id) tasks ≡ true
    → find_first (has_id id) (map (over r) tasks) ≡ some r
find-over r id [] own h = absurd (ground arith)
find-over r id (t ∷ ts) own h = elim (Bool-cases (has_id r.task_id t)) [
  | inl e ↦ rw (e, own) refl
  | inr e ↦
      let same = (text_eq_iff r.task_id id).0 own in
      let e' : has_id id t ≡ false = rw (← same) e in
      rw (e, e') (find-over r id ts own (rw e' at h))
]

find-apart :
    (r : Task) (id : Text) (tasks : List Task)
    → has_id id r ≡ false
    → find_first (has_id id) (map (over r) tasks) ≡ find_first (has_id id) tasks
find-apart r id [] apart = refl
find-apart r id (t ∷ ts) apart = elim (Bool-cases (has_id r.task_id t)) [
  | inl e ↦ let e' = has_id-same r t id e in rw (e, ← e', apart) (find-apart r id ts apart)
  | inr e ↦ rw (e, find-apart r id ts apart) refl
]

find-upsert :
    (r : Task) (id : Text) (tasks : List Task)
    → has_id id r ≡ true
    → find_first (has_id id) (upsert_task r tasks) ≡ some r
unfolding upsert_task
find-upsert r id tasks own =
    let same = (text_eq_iff r.task_id id).0 own in
    elim (Bool-cases (any_of (has_id r.task_id) tasks)) [
      | inl e ↦ rw e (find-over r id tasks own (rw (← same) e))
      | inr e ↦ rw (e, own) refl
    ]

find-upsert_apart :
    (r : Task) (id : Text) (tasks : List Task)
    → has_id id r ≡ false
    → find_first (has_id id) (upsert_task r tasks) ≡ find_first (has_id id) tasks
unfolding upsert_task
find-upsert_apart r id tasks apart = elim (Bool-cases (any_of (has_id r.task_id) tasks)) [
  | inl e ↦ rw e (find-apart r id tasks apart)
  | inr e ↦ rw (e, apart) refl
]

find-restore_apart :
    (id : Text) (rows tasks : List Task)
    → any_of (has_id id) rows ≡ false
    → find_first (has_id id) (restore_runtime_tasks rows tasks) ≡ find_first (has_id id) tasks
unfolding restore_runtime_tasks
find-restore_apart id [] tasks h = refl
find-restore_apart id (r ∷ rows) tasks h = elim (Bool-cases (has_id id r)) [
  | inl e ↦ absurd (ground arith)
  | inr e ↦
      find-restore_apart id rows (upsert_task r tasks) (rw e at h) ∙ find-upsert_apart r id tasks e
]

find-restore :
    (id : Text) (rows tasks : List Task) (t : Task)
    → HasUniqueIds rows
    → find_first (has_id id) rows ≡ some t
    → find_first (has_id id) (restore_runtime_tasks rows tasks) ≡ some t
unfolding restore_runtime_tasks
find-restore id [] tasks t u h = absurd (ground arith)
find-restore id (r ∷ rows) tasks t (apart, u) h = elim (Bool-cases (has_id id r)) [
  | inl e ↦
      let same = (text_eq_iff r.task_id id).0 e in
      find-restore_apart id rows (upsert_task r tasks) (rw (← same) apart)
      ∙ find-upsert r id tasks e
      ∙ rw e at h
  | inr e ↦ find-restore id rows (upsert_task r tasks) t u (rw e at h)
]

take-all : {A : Type 0} (n : ℕ) (xs : List A) → length xs ≤ n → take n xs ≡ xs
take-all zero [] h = refl
take-all (suc n) [] h = refl
take-all zero (x ∷ xs) h = absurd (ground arith)
take-all (suc n) (x ∷ xs) h = ap (λ ys. x ∷ ys) (take-all n xs (omega (arith, h)))

some-injective : (o : Option Task) (t : Task) → found o ≡ ok t → o ≡ some t
some-injective none t h = absurd (ground arith)
some-injective (some u) t h = ground arith

-- A task is not lost when a backup is restored: of a table of at most 10,000 tasks with different
-- numbers, each task is read unchanged after the dump was written over any other table.
pub restore-dump :
    (id : Text) (before restored : List Task) (t : Task)
    → HasUniqueIds before
    → length before ≤ 10000
    → get_task id before ≡ ok t
    → get_task id (restore_runtime_tasks (dump_runtime_tasks 10000 before) restored) ≡ ok t
unfolding get_task dump_runtime_tasks
restore-dump id before restored t u few read =
    ap (λ rows. found (find_first (has_id id) (restore_runtime_tasks rows restored)))
      (take-all 10000 before few)
    ∙ ap found (find-restore id before restored t u (some-injective _ t read))
