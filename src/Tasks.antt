-- ===== src/Tasks.antt =====
-- Tasks of an organization, those who watch them and the events that they publish: the types of
-- api/internal/work/work.go, and CreateTask, UpdateTask and SetWatcher of
-- api/internal/postgres/work.go, with the trigger on task_watchers
-- (api/migrations/000003_phase2_work.up.sql). Dates are text. The
-- status Open is `opened`.
pub mod Update
pub mod Watching
pub mod Changing
pub mod Silent
pub mod Invariant
pub mod Reach
use plaiflowapp.Base.{
  ℕ, Bool, true, false, not, ◌&&◌, ◌||◌, List, [], ◌∷◌, ◌++◌, Option, none, some, String, str_eq,
  ◌==◌, if◌then◌else◌, is_some,
}
use plaiflowapp.Sql.{
  Tx, commit, rollback, ◌>>=◌, ◌>>◌, guard, update_where, delete_where, rows_affected, query_row,
  eq_column,
}
use plaiflowapp.Tenant
use plaiflowapp.Tenant.{Role, is_owner, is_admin, current_role}

pub data Status : Type 0 where
  opened in_progress done cancelled : Status

pub data Priority : Type 0 where
  normal high urgent : Priority

abbrev pub status_eq : Status → Status → Bool
status_eq opened opened = true
status_eq in_progress in_progress = true
status_eq done done = true
status_eq cancelled cancelled = true
status_eq _ _ = false

abbrev pub priority_eq : Priority → Priority → Bool
priority_eq normal normal = true
priority_eq high high = true
priority_eq urgent urgent = true
priority_eq _ _ = false

-- A row of `tasks`.
pub record Task : Type 0 where
  pub id : String
  pub organization_id : String
  pub title : String
  pub description : String
  pub creator_user_id : String
  pub assignee_user_id : Option String
  pub status : Status
  pub priority : Priority
  pub due_on : Option String
  pub created_at : ℕ
  pub updated_at : ℕ
  pub status_changed_at : ℕ
  pub completed_at : Option ℕ
  pub completed_by_user_id : Option String

pub record CreateTask : Type 0 where
  pub id : String
  pub organization_id : String
  pub actor_user_id : String
  pub title : String
  pub description : String
  pub assignee_user_id : String
  pub due_on : String
  pub priority : Priority
  pub now : ℕ

pub record UpdateTask : Type 0 where
  pub id : String
  pub organization_id : String
  pub actor_user_id : String
  pub title : String
  pub description : String
  pub assignee_user_id : String
  pub due_on : String
  pub status : Status
  pub priority : Priority
  pub title_set : Bool
  pub description_set : Bool
  pub assignee_set : Bool
  pub due_on_set : Bool
  pub status_set : Bool
  pub priority_set : Bool
  pub now : ℕ

pub record Watcher : Type 0 where
  pub organization_id : String
  pub task_id : String
  pub user_id : String
  pub created_at : ℕ

-- The payloads that the code marshals.
pub data Payload : Type 0 where
  created : String → Option String → Payload
  details : List String → Payload
  assignment : Option String → Option String → Payload
  due_changed : Payload
  new_priority : Priority → Payload
  new_status : Status → Status → Payload
  watched : String → Payload

pub record DomainEvent : Type 0 where
  pub organization_id : String
  pub event_type : String
  pub aggregate_id : String
  pub actor_user_id : String
  pub payload : Payload
  pub occurred_at : ℕ

-- The rows that the check of a reviewer reads.
pub record ReviewTask : Type 0 where
  pub organization_id : String
  pub task_id : String
  pub document_id : String

pub record Document : Type 0 where
  pub id : String
  pub organization_id : String
  pub status : String
  pub submitted_by_user_id : String
  pub group_restricted : Bool
  pub assignee_user_id : Option String

pub record DocumentSource : Type 0 where
  pub organization_id : String
  pub document_id : String
  pub submitted_by_user_id : String
  pub group_source : Bool

pub record Store : Type 0 where
  pub tenant : Tenant.Store
  pub tasks : List Task
  pub watchers : List Watcher
  pub events : List DomainEvent
  pub review_tasks : List ReviewTask
  pub documents : List Document
  pub sources : List DocumentSource

pub data Error : Type 0 where
  not_found forbidden conflict : Error

-- nullif(value,'') and coalesce(column,'')
abbrev pub nullif : String → Option String
nullif v = if str_eq v "" then none else some v

abbrev pub coalesce : Option String → String
coalesce none = ""
coalesce (some v) = v

abbrev pub manager : Role → Bool
manager r = is_owner r || is_admin r

abbrev pub member_exists : String → String → Store → Bool
member_exists organization user s = is_some (current_role user organization s.tenant)

abbrev pub task_at : String → String → Task → Bool
task_at organization id t = str_eq t.organization_id organization && str_eq t.id id

abbrev pub domain_event : String → String → String → String → Payload → ℕ → DomainEvent
domain_event organization id actor type_name payload now = record {
  organization_id = organization;
  event_type = type_name;
  aggregate_id = id;
  actor_user_id = actor;
  payload = payload;
  occurred_at = now;
}

abbrev pub new_task : CreateTask → Task
new_task c = record {
  id = c.id;
  organization_id = c.organization_id;
  title = c.title;
  description = c.description;
  creator_user_id = c.actor_user_id;
  assignee_user_id = nullif c.assignee_user_id;
  status = opened;
  priority = c.priority;
  due_on = nullif c.due_on;
  created_at = c.now;
  updated_at = c.now;
  status_changed_at = c.now;
  completed_at = none;
  completed_by_user_id = none;
}

-- `accepts` stands for the CHECK constraints and the casts of the table.
unfoldable pub create_task : (Task → Bool) → CreateTask → Store → Tx Error Store
create_task accepts c s = do
  guard (member_exists c.organization_id c.actor_user_id s) not_found
  guard (str_eq c.assignee_user_id "" || member_exists c.organization_id c.assignee_user_id s)
      not_found
  guard (accepts (new_task c) && (rows_affected (λ (t : Task). str_eq t.id c.id) s.tasks == 0))
      conflict
  commit (record s {
    tasks = new_task c ∷ s.tasks;
    events =
        s.events
        ++ domain_event c.organization_id c.id c.actor_user_id "task.created"
            (created c.id (nullif c.assignee_user_id)) c.now
          ∷ [];
  })

abbrev pub watches_as : String → String → String → Watcher → Bool
watches_as organization id user w =
    str_eq w.organization_id organization && str_eq w.task_id id && str_eq w.user_id user
