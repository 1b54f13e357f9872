-- ===== src/System/Tasks/Update.antt =====
-- Tasks that were stopped by a cancellation, under the updates of the table.
use qmt_trading.Base.{
  ◌≡◌, refl, ap, inl, inr, Bool, true, false, List, [], ◌∷◌, map, any_of, Bool-cases, if◌then◌else◌,
  arith,
}
use qmt_trading.Text.{Text, text_eq}
use qmt_trading.Text.Order.{text_eq_iff}
use qmt_trading.System.Tasks.{
  Task, is_cancelled, Report, ok, has_id, written, get_task, is_task_cancelled, new_task,
  ensure_task_record, update_task, may_write, swept,
}

-- There is a row of the number, and each such row is cancelled.
abbrev pub IsStopped : Text → List Task → Type 0
IsStopped id tasks = (any_of (has_id id) tasks ≡ true) × (any_of (may_write id) tasks ≡ false)

-- Changes of a row that keep its number, and a cancellation.
pub record Calm (f : Task → Task) : Type 0 where
  pub same_id : (t : Task) → (f t).task_id ≡ t.task_id
  pub same_end : (t : Task) → is_cancelled t.status ≡ true → is_cancelled (f t).status ≡ true

any_of-map :
    (p : Task → Bool) (f : Task → Task) (tasks : List Task)
    → ((t : Task) → p (f t) ≡ p t)
    → any_of p (map f tasks) ≡ any_of p tasks
any_of-map p f [] h = refl
any_of-map p f (t ∷ ts) h = rw (h t, any_of-map p f ts h) refl

may_write-Calm :
    (id : Text) (f : Task → Task) (t : Task)
    → Calm f
    → may_write id t ≡ false
    → may_write id (f t) ≡ false
may_write-Calm id f t c h = ground (arith, c.same_id t, c.same_end t)

none_may_write :
    (id : Text) (f : Task → Task) (tasks : List Task)
    → Calm f
    → any_of (may_write id) tasks ≡ false
    → any_of (may_write id) (map f tasks) ≡ false
none_may_write id f [] c h = refl
none_may_write id f (t ∷ ts) c h = elim (Bool-cases (may_write id t)) [
  | inl e ↦ absurd (ground arith)
  | inr e ↦ rw (may_write-Calm id f t c e) (none_may_write id f ts c (rw e at h))
]

pub map-IsStopped :
    (id : Text) (f : Task → Task) (tasks : List Task)
    → Calm f
    → IsStopped id tasks
    → IsStopped id (map f tasks)
map-IsStopped id f tasks c (known, stopped) = (
  rw (any_of-map (has_id id) f tasks (λ t. ap (λ i. text_eq i id) (c.same_id t))) known,
  none_may_write id f tasks c stopped,
)

pub guarded-Calm :
    (id : Text) (r : Report) (now : Text)
    → Calm (λ t. if may_write id t then written r now t else t)
guarded-Calm id r now = record { same_id = λ t. ground arith; same_end = λ t h. ground arith }

pub cancelling-Calm :
    (id : Text) (r : Report) (now : Text)
    → is_cancelled r.status ≡ true
    → Calm (λ t. if has_id id t then written r now t else t)
cancelling-Calm id r now k = record { same_id = λ t. ground arith; same_end = λ t h. ground arith }

pub swept-Calm : (detail : Task → Text → Text) (now : Text) → Calm (swept detail now)
swept-Calm detail now = record { same_id = λ t. ground arith; same_end = λ t h. ground arith }

-- A guarded update of a stopped task hits no row and changes none.
pub guarded_still :
    (id : Text) (r : Report) (now : Text) (tasks : List Task)
    → any_of (may_write id) tasks ≡ false
    → map (λ t. if may_write id t then written r now t else t) tasks ≡ tasks
guarded_still id r now [] h = refl
guarded_still id r now (t ∷ ts) h = elim (Bool-cases (may_write id t)) [
  | inl e ↦ absurd (ground arith)
  | inr e ↦ rw e (ap (λ us. t ∷ us) (guarded_still id r now ts (rw e at h)))
]

none_left :
    (id : Text) (r : Report) (now : Text) (tasks : List Task)
    → is_cancelled r.status ≡ true
    → any_of (may_write id) (map (λ t. if has_id id t then written r now t else t) tasks) ≡ false
none_left id r now [] k = refl
none_left id r now (t ∷ ts) k = elim (Bool-cases (has_id id t)) [
  | inl e ↦ ground (arith, none_left id r now ts k)
  | inr e ↦ ground (arith, none_left id r now ts k)
]

-- A cancellation stops the task that it finds.
pub update_task-IsStopped :
    (id : Text) (r : Report) (now : Text) (tasks : List Task)
    → is_cancelled r.status ≡ true
    → any_of (has_id id) tasks ≡ true
    → IsStopped id (update_task id r now tasks)
unfolding update_task
update_task-IsStopped id r now tasks k known = (
  rw
      (any_of-map (has_id id) (λ t. if has_id id t then written r now t else t) tasks
        (λ t. ground arith))
      known,
  none_left id r now tasks k,
)

pub get_task-known :
    (id : Text) (tasks : List Task) (t : Task)
    → get_task id tasks ≡ ok t
    → any_of (has_id id) tasks ≡ true
unfolding get_task
get_task-known id [] t h = cc
get_task-known id (u ∷ us) t h = ground (arith, get_task-known id us t)

pub is_task_cancelled-IsStopped :
    (id : Text) (tasks : List Task) → IsStopped id tasks → is_task_cancelled id tasks ≡ true
unfolding is_task_cancelled
is_task_cancelled-IsStopped id [] (known, stopped) = known
is_task_cancelled-IsStopped id (t ∷ ts) (known, stopped) = elim (Bool-cases (has_id id t)) [
  | inl e ↦ ground arith
  | inr e ↦ ground (arith, is_task_cancelled-IsStopped id ts (rw e at known, rw e at stopped))
]

other_id :
    (id other : Text) (tasks : List Task)
    → any_of (has_id id) tasks ≡ true
    → any_of (has_id other) tasks ≡ false
    → text_eq other id ≡ false
other_id id other tasks h k = elim (Bool-cases (text_eq other id)) [
  | inr e ↦ e
  | inl e ↦ let same = (text_eq_iff other id).0 e in absurd (ground (arith, rw same at k))
]

-- A new row of another number.
pub new_task-IsStopped :
    (id other task_type message now : Text) (tasks : List Task)
    → any_of (has_id other) tasks ≡ false
    → IsStopped id tasks
    → IsStopped id (new_task other task_type message now ∷ tasks)
new_task-IsStopped id other task_type message now tasks k (known, stopped) =
    let e = other_id id other tasks known k in (rw e known, rw e stopped)

pub ensure_task_record-IsStopped :
    (id other task_type message now : Text) (tasks : List Task)
    → IsStopped id tasks
    → IsStopped id (ensure_task_record other task_type message now tasks)
unfolding ensure_task_record
ensure_task_record-IsStopped id other task_type message now tasks h =
    elim (Bool-cases (any_of (has_id other) tasks)) [
      | inl e ↦ rw e h
      | inr e ↦ rw e (new_task-IsStopped id other task_type message now tasks e h)
    ]
