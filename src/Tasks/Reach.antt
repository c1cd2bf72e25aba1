-- ===== src/Tasks/Reach.antt =====
-- Any sequence of the commands on tasks of api/internal/postgres/work.go that succeed.
use plaiflowapp.Base.{
  ℕ, Bool, ◌||◌, ◌≡◌, subst, some, String, str_eq, ◌==◌, ==_iff, Option-cases, Bool-cases, inl, inr,
  List,
}
use plaiflowapp.Sql.{commit, rollback, guard_passed, delete_where, rows_affected, query_row}
use plaiflowapp.Tenant.{current_role}
use plaiflowapp.Tasks.{
  Task, CreateTask, UpdateTask, Watcher, Store, not_found, forbidden, conflict, manager,
  member_exists, task_at, watches_as, create_task,
}
use plaiflowapp.Tasks.Update.{update_task}
use plaiflowapp.Tasks.Watching.{overlaps, add_watcher, remove_watcher, set_watcher}
use plaiflowapp.Tasks.Invariant.{
  IsWatched, create_task-IsWatched, update_task-IsWatched, removed-IsWatched, added-IsWatched,
}

-- An equation between stores that succeed, by table.
IsWatched-of_eq :
    (tasks : List Task) (ws : List Watcher) (s' : Store)
    → tasks ≡ s'.tasks
    → ws ≡ s'.watchers
    → IsWatched tasks ws
    → IsWatched s'.tasks s'.watchers
IsWatched-of_eq tasks ws s' e f w =
    subst (λ y. IsWatched y s'.watchers) e (subst (IsWatched tasks) f w)

module _ (organization actor id watcher : String) (now : ℕ) (s s' : Store)
    (w : IsWatched s.tasks s.watchers) where
  add_watcher-IsWatched :
      {t : Task}
      → query_row (task_at organization id) s.tasks ≡ some t
      → add_watcher organization actor id watcher now s ≡ commit s'
      → IsWatched s'.tasks s'.watchers
  unfolding add_watcher
  add_watcher-IsWatched q h =
      let (known, h₁) = guard_passed (member_exists organization watcher s) not_found _ h in
      let (clear, h₂) =
        guard_passed (rows_affected (overlaps organization id watcher) s.tasks == 0) conflict _
          h₁ in
      let zero_rows =
        (==_iff (rows_affected (overlaps organization id watcher) s.tasks) 0).0 clear in
      elim (Bool-cases (rows_affected (watches_as organization id watcher) s.watchers == 0)) [
        | inl fresh ↦
            let h₃ = rw fresh at h₂ in
            IsWatched-of_eq s.tasks _ s' (cc) (cc)
              (added-IsWatched s.tasks s.watchers organization id watcher now q zero_rows w)
        | inr known ↦ let h₃ = rw known at h₂ in IsWatched-of_eq s.tasks s.watchers s' (cc) (cc) w
      ]

  remove_watcher-IsWatched :
      remove_watcher organization actor id watcher now s ≡ commit s'
      → IsWatched s'.tasks s'.watchers
  unfolding remove_watcher
  remove_watcher-IsWatched h =
      elim (Bool-cases (rows_affected (watches_as organization id watcher) s.watchers == 0)) [
        | inl gone ↦
            let h₁ = rw (remove_watcher, gone) at h in
            IsWatched-of_eq s.tasks s.watchers s' (cc) (cc) w
        | inr there ↦
            let h₁ = rw (remove_watcher, there) at h in
            IsWatched-of_eq s.tasks (delete_where (watches_as organization id watcher) s.watchers)
              s' (cc) (cc)
              (removed-IsWatched s.tasks s.watchers (watches_as organization id watcher) w)
      ]

  set_watcher-IsWatched :
      (add : Bool)
      → set_watcher organization actor id watcher add now s ≡ commit s'
      → IsWatched s'.tasks s'.watchers
  unfolding set_watcher
  set_watcher-IsWatched add h = elim (Option-cases (current_role actor organization s.tenant)) [
    | inl e ↦ let h₁ : rollback not_found ≡ commit s' = rw (set_watcher, e) at h in absurd (cc)
    | inr (r, e) ↦ elim (Option-cases (query_row (task_at organization id) s.tasks)) [
      | inl f ↦ let h₁ : rollback not_found ≡ commit s' = rw (set_watcher, e, f) at h in absurd (cc)
      | inr (t, f) ↦
          let h₁ = rw (set_watcher, e, f) at h in
          let (may, h₂) =
            guard_passed (manager r || str_eq t.creator_user_id actor) forbidden _ h₁ in
          elim (Bool-cases add) [
            | inl yes_add ↦ add_watcher-IsWatched f (rw yes_add at h₂)
            | inr no_add ↦ remove_watcher-IsWatched (rw no_add at h₂)
          ]
    ]
  ]

-- One command that succeeds; `accepts` is what the table accepts.
pub data Step (accepts : Task → Bool) : Store → Store → Type 0 where
  creating :
      (c : CreateTask) {s s' : Store} → create_task accepts c s ≡ commit s' → Step accepts s s'
  updating :
      (review_enabled : Bool) (c : UpdateTask) {s s' : Store}
      → update_task review_enabled accepts c s ≡ commit s'
      → Step accepts s s'
  watching :
      (organization actor id watcher : String) (add : Bool) (now : ℕ) {s s' : Store}
      → set_watcher organization actor id watcher add now s ≡ commit s'
      → Step accepts s s'

pub data Run (accepts : Task → Bool) : Store → Store → Type 0 where
  still : {s : Store} → Run accepts s s
  then_step : {s t u : Store} → Run accepts s t → Step accepts t u → Run accepts s u

-- From a store where each watcher watches a task of the table and is not its assignee, every
-- sequence of creations of tasks, updates of tasks and changes of watchers (`CreateTask`, `UpdateTask`
-- and `SetWatcher`) that succeed leads to such a store.
pub watchers_apart :
    (accepts : Task → Bool) {s s' : Store}
    → Run accepts s s'
    → IsWatched s.tasks s.watchers
    → IsWatched s'.tasks s'.watchers
watchers_apart accepts still w = w
watchers_apart accepts (then_step {t = s} {u = s'} run step) w =
    let w' = watchers_apart accepts run w in stepped s s' step w'
  where
    stepped :
        (s s' : Store)
        → Step accepts s s'
        → IsWatched s.tasks s.watchers
        → IsWatched s'.tasks s'.watchers
    stepped s s' (creating c h) w = create_task-IsWatched accepts c s s' h w
    stepped s s' (updating review_enabled c h) w =
        update_task-IsWatched review_enabled accepts c s s' h w
    stepped s s' (watching organization actor id watcher add now h) w =
        set_watcher-IsWatched organization actor id watcher now s s' w add h
