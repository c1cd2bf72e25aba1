-- ===== src/Tasks/Update.antt =====
-- `UpdateTask` of api/internal/postgres/work.go.
use plaiflowapp.Base.{
  Bool, true, false, not, ◌&&◌, ◌||◌, List, [], ◌∷◌, ◌++◌, none, some, String, str_eq,
  if◌then◌else◌, is_some,
}
use plaiflowapp.Sql.{
  Tx, commit, rollback, ◌>>◌, guard, update_where, delete_where, query_row, eq_column,
}
use plaiflowapp.Tenant.{Role, current_role}
use plaiflowapp.Tasks.{
  status_eq, priority_eq, done, Task, UpdateTask, details, assignment, due_changed, new_priority,
  new_status, DomainEvent, ReviewTask, Document, DocumentSource, Store, Error, not_found, forbidden,
  conflict, nullif, coalesce, manager, member_exists, task_at, domain_event, watches_as,
}

-- The command with the row's values where it sets none.
unfoldable pub completed_command : Task → UpdateTask → UpdateTask
completed_command t c = record c {
  title = if c.title_set then c.title else t.title;
  description = if c.description_set then c.description else t.description;
  assignee_user_id = if c.assignee_set then c.assignee_user_id else coalesce t.assignee_user_id;
  due_on = if c.due_on_set then c.due_on else coalesce t.due_on;
  status = if c.status_set then c.status else t.status;
  priority = if c.priority_set then c.priority else t.priority;
}

unfoldable pub may_update : Role → Task → UpdateTask → Bool
may_update role t c =
    let can_edit = manager role || str_eq t.creator_user_id c.actor_user_id in
    let can_status = manager role || str_eq (coalesce t.assignee_user_id) c.actor_user_id in
    not (
      (not can_edit
        && (c.title_set || c.description_set || c.assignee_set || c.due_on_set || c.priority_set))
      || (c.status_set && not can_status))

-- The UPDATE, of a command that is completed.
unfoldable pub written : UpdateTask → Task → Task
written c t = record t {
  title = c.title;
  description = c.description;
  assignee_user_id = nullif c.assignee_user_id;
  status = c.status;
  priority = c.priority;
  due_on = nullif c.due_on;
  updated_at = c.now;
  status_changed_at = if status_eq t.status c.status then t.status_changed_at else c.now;
  completed_at = if status_eq c.status done then some c.now else none;
  completed_by_user_id = if status_eq c.status done then some c.actor_user_id else none;
}

-- Whether `user` may review the document.
abbrev pub may_review : String → String → String → Store → Bool
may_review organization document user s = is_some (
    query_row
      (λ (d : Document).
        str_eq d.organization_id organization
        && str_eq d.id document
        && (str_eq d.status "Available" || str_eq d.status "Archived")
        && elim (current_role user organization s.tenant) [
          | none ↦ false
          | some role ↦
              manager role
              || (str_eq d.submitted_by_user_id user && not d.group_restricted)
              || eq_column d.assignee_user_id user
              || is_some (
                  query_row
                    (λ (x : DocumentSource).
                      str_eq x.organization_id organization
                      && str_eq x.document_id document
                      && str_eq x.submitted_by_user_id user
                      && not x.group_source)
                    s.sources)
        ])
      s.documents)

unfoldable pub reviewer_fits : Bool → UpdateTask → Store → Bool
reviewer_fits review_enabled c s =
    if review_enabled && c.assignee_set && not (str_eq c.assignee_user_id "")
    then elim (query_row
        (λ (x : ReviewTask). str_eq x.organization_id c.organization_id && str_eq x.task_id c.id)
        s.review_tasks) [
          | none ↦ true
          | some x ↦ may_review c.organization_id x.document_id c.assignee_user_id s
        ]
    else true

abbrev pub assignment_event : String → String
assignment_event assignee = if str_eq assignee "" then "task.unassigned" else "task.assigned"

abbrev pub when {ℓ} : {A : Type ℓ} → Bool → A → List A
when test x = if test then x ∷ [] else []

abbrev pub changed_fields : Task → UpdateTask → List String
changed_fields t c =
    when (c.title_set && not (str_eq c.title t.title)) "title"
    ++ when (c.description_set && not (str_eq c.description t.description)) "description"

-- The events of a change, with the types of the table `changes`; `c` is completed.
unfoldable pub changes : Task → UpdateTask → List DomainEvent
changes t c =
    let assignee = coalesce t.assignee_user_id in
    let event = domain_event c.organization_id c.id c.actor_user_id in
    when
      ((c.title_set && not (str_eq c.title t.title))
        || (c.description_set && not (str_eq c.description t.description)))
      (event "task.details_changed" (details (changed_fields t c)) c.now)
    ++ when (c.assignee_set && not (str_eq c.assignee_user_id assignee)) (
        event (assignment_event c.assignee_user_id)
          (assignment (nullif c.assignee_user_id) (nullif assignee)) c.now)
    ++ when (c.due_on_set && not (str_eq c.due_on (coalesce t.due_on)))
        (event "task.due_changed" due_changed c.now)
    ++ when (c.priority_set && not (priority_eq c.priority t.priority))
        (event "task.priority_changed" (new_priority c.priority) c.now)
    ++ when (c.status_set && not (status_eq c.status t.status))
        (event "task.status_changed" (new_status c.status t.status) c.now)

unfoldable pub update_task : Bool → (Task → Bool) → UpdateTask → Store → Tx Error Store
update_task review_enabled accepts command s =
    elim (current_role command.actor_user_id command.organization_id s.tenant) [
      | none ↦ rollback not_found
      | some role ↦ elim (query_row (task_at command.organization_id command.id) s.tasks) [
        | none ↦ rollback not_found
        | some t ↦ do
          guard (may_update role t command) forbidden
          let c = completed_command t command
          guard
              (str_eq c.assignee_user_id "" || member_exists c.organization_id c.assignee_user_id s)
              not_found
          guard (reviewer_fits review_enabled c s) forbidden
          guard (accepts (written c t)) conflict
          commit (record s {
            tasks = update_where (task_at c.organization_id c.id) (written c) s.tasks;
            watchers =
                if str_eq c.assignee_user_id ""
                then s.watchers
                else delete_where (watches_as c.organization_id c.id c.assignee_user_id) s.watchers;
            events = s.events ++ changes t c;
          })
      ]
    ]
