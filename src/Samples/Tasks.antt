-- ===== src/Samples/Tasks.antt =====
-- Tasks of the sample organization (api/internal/postgres/work.go).
use plaiflowapp.Base.{Bool, true, false, ◌≡◌, refl, [], ◌∷◌, some, In, length, map}
use plaiflowapp.Sql.{commit, rollback, Tx, update_where, delete_where, query_row, rows_affected}
use plaiflowapp.Tenant.{Role, current_role}
use plaiflowapp.Tasks.{
  Task, normal, done, CreateTask, UpdateTask, Store, Error, task_at, create_task,
}
use plaiflowapp.Tasks.Update.{
  completed_command, may_update, written, reviewer_fits, changes, update_task,
}
use plaiflowapp.Tasks.Watching.{set_watcher, add_watcher}
use plaiflowapp.Tasks.Changing.{MayChange, Edits, update_task_lem}
use plaiflowapp.Tasks.Invariant.{IsWatched}
use plaiflowapp.Tasks.Reach.{still, then_step, creating, watching, updating, watchers_apart}
use plaiflowapp.Samples.Tenant.{office}

abbrev blank : Store
blank = record {
  tenant = office;
  tasks = [];
  watchers = [];
  events = [];
  review_tasks = [];
  documents = [];
  sources = [];
}

abbrev create : CreateTask
create = record {
  id = "t";
  organization_id = "o";
  actor_user_id = "a";
  title = "Call";
  description = "";
  assignee_user_id = "";
  due_on = "";
  priority = normal;
  now = 10;
}

-- Assigns the task and closes it.
abbrev finish : UpdateTask
finish = record {
  id = "t";
  organization_id = "o";
  actor_user_id = "a";
  title = "";
  description = "";
  assignee_user_id = "b";
  due_on = "";
  status = done;
  priority = normal;
  title_set = false;
  description_set = false;
  assignee_set = true;
  due_on_set = false;
  status_set = true;
  priority_set = false;
  now = 30;
}

-- Sets the title to the one that it has.
abbrev retitle : UpdateTask
retitle = record finish {
  title = "Call";
  title_set = true;
  assignee_set = false;
  status_set = false;
  now = 50;
}

abbrev anything : Task → Bool
anything t = true

abbrev after : Tx Error Store → Store
after (commit s) = s
after (rollback e) = blank

unfoldable made : Store
unfolding create_task current_role query_row rows_affected
made = after (create_task anything create blank)

makes : create_task anything create blank ≡ commit made
unfolding made
makes = refl

unfoldable followed : Store
unfolding made set_watcher add_watcher current_role query_row rows_affected
followed = after (set_watcher "o" "a" "t" "b" true 20 made)

follows : set_watcher "o" "a" "t" "b" true 20 made ≡ commit followed
unfolding followed
follows = refl

unfoldable finished : Store
unfolding followed update_task current_role query_row may_update completed_command reviewer_fits
    written changes update_where delete_where
finished = after (update_task true anything finish followed)

finishes : update_task true anything finish followed ≡ commit finished
unfolding finished
finishes = refl

blank-IsWatched : IsWatched blank.tasks blank.watchers
blank-IsWatched = record { there = λ w i. absurd i; apart = λ w t i j e. absurd i }

watchers_apart_example : IsWatched finished.tasks finished.watchers
watchers_apart_example =
    watchers_apart anything
      (then_step
        (then_step (then_step still (creating create makes))
          (watching "o" "a" "t" "b" true 20 follows))
        (updating true finish finishes))
      blank-IsWatched

one_left : length finished.events ≡ 4
unfolding finished
one_left = refl

update_task_lem_example :
    (r : Role) × (t u : Task) × (current_role "a" "o" followed.tenant ≡ some r)
    × (query_row (task_at "o" "t") followed.tasks ≡ some t)
    × (query_row (task_at "o" "t") finished.tasks ≡ some u)
    × MayChange finish r t
    × Edits finish t u
    × ((x : Task) → task_at "o" "t" x ≡ false → In x followed.tasks → In x finished.tasks)
update_task_lem_example = update_task_lem true anything finish followed finished finishes

unfoldable retitled : Store
unfolding finished update_task current_role query_row may_update completed_command reviewer_fits
    written changes update_where delete_where
retitled = after (update_task true anything retitle finished)

retitles : update_task true anything retitle finished ≡ commit retitled
unfolding retitled
retitles = refl

-- An edit of the title of a task that is done moves the time of its completion.
restamped :
    (map (λ (t : Task). t.completed_at) finished.tasks ≡ some 30 ∷ [])
    × (map (λ (t : Task). t.completed_at) retitled.tasks ≡ some 50 ∷ [])
unfolding retitled
restamped = (refl, refl)
