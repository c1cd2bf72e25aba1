-- ===== src/Tasks/Watching.antt =====
-- `SetWatcher` of api/internal/postgres/work.go, with the trigger on task_watchers.
use plaiflowapp.Base.{
  ℕ, Bool, ◌&&◌, ◌||◌, [], ◌∷◌, ◌++◌, none, some, String, str_eq, ◌==◌, if◌then◌else◌,
}
use plaiflowapp.Sql.{
  Tx, commit, rollback, ◌>>◌, guard, delete_where, rows_affected, query_row, eq_column,
}
use plaiflowapp.Tenant.{current_role}
use plaiflowapp.Tasks.{
  Task, watched, Store, Error, not_found, forbidden, conflict, manager, member_exists, task_at,
  domain_event, watches_as,
}

-- The trigger task_watchers_no_assignee raises.
abbrev pub overlaps : String → String → String → Task → Bool
overlaps organization id user t = task_at organization id t && eq_column t.assignee_user_id user

abbrev pub event_of : String → String → String → String → String → ℕ → Store → Store
event_of organization actor id watcher type_name now s = record s {
  events = s.events ++ domain_event organization id actor type_name (watched watcher) now ∷ [];
}

unfoldable pub add_watcher : String → String → String → String → ℕ → Store → Tx Error Store
add_watcher organization actor id watcher now s = do
  guard (member_exists organization watcher s) not_found
  guard (rows_affected (overlaps organization id watcher) s.tasks == 0) conflict
  (if rows_affected (watches_as organization id watcher) s.watchers == 0
      then commit (
          event_of organization actor id watcher "task.watcher_added" now (record s {
            watchers =
                record {
                  organization_id = organization;
                  task_id = id;
                  user_id = watcher;
                  created_at = now;
                }
                ∷ s.watchers;
          }))
      else commit s)

unfoldable pub remove_watcher : String → String → String → String → ℕ → Store → Tx Error Store
remove_watcher organization actor id watcher now s =
    if rows_affected (watches_as organization id watcher) s.watchers == 0
    then commit s
    else commit (
        event_of organization actor id watcher "task.watcher_removed" now
          (record s { watchers = delete_where (watches_as organization id watcher) s.watchers }))

unfoldable pub set_watcher : String → String → String → String → Bool → ℕ → Store → Tx Error Store
set_watcher organization actor id watcher add now s =
    elim (current_role actor organization s.tenant) [
      | none ↦ rollback not_found
      | some role ↦ elim (query_row (task_at organization id) s.tasks) [
        | none ↦ rollback not_found
        | some t ↦ do
          guard (manager role || str_eq t.creator_user_id actor) forbidden
          (if add
              then add_watcher organization actor id watcher now s
              else remove_watcher organization actor id watcher now s)
      ]
    ]
