-- ===== src/Tasks/Silent.antt =====
-- Updates that publish nothing (`UpdateTask` of api/internal/postgres/work.go).
use plaiflowapp.Base.{
  Bool, true, false, not, ◌&&◌, ◌≡◌, refl, ap, ◌∙◌, subst, [], ◌++◌, Option, some, String, str_eq,
  arith, Bool-cases, inl, inr, append-nil, eq_iff,
}
use plaiflowapp.Sql.{commit, query_row}
use plaiflowapp.Tasks.{
  Status, Priority, status_eq, priority_eq, Task, UpdateTask, Store, nullif, coalesce, task_at,
}
use plaiflowapp.Tasks.Update.{completed_command, written, changes, update_task}
use plaiflowapp.Tasks.Changing.{query_row-update_where, update_task-Updated}

str_eq_refl : (v : String) → str_eq v v ≡ true
str_eq_refl v = (eq_iff v v).1 refl

-- The columns that a user edits are the same.
pub record Same (t u : Task) : Type 0 where
  pub title : u.title ≡ t.title
  pub description : u.description ≡ t.description
  pub assignee : u.assignee_user_id ≡ t.assignee_user_id
  pub due_on : u.due_on ≡ t.due_on
  pub status : u.status ≡ t.status
  pub priority : u.priority ≡ t.priority

nullif_same : (v : String) (o : Option String) → nullif v ≡ o → str_eq v (coalesce o) ≡ true
nullif_same v o e = elim (Bool-cases (str_eq v "")) [
  | inl empty ↦ subst (λ y. str_eq v (coalesce y) ≡ true) (rw empty at e) empty
  | inr full ↦ subst (λ y. str_eq v (coalesce y) ≡ true) (rw full at e) (str_eq_refl v)
]

written_silent : (c : UpdateTask) (t : Task) → Same t (written c t) → changes t c ≡ []
unfolding written changes
written_silent c t same =
    let title : str_eq c.title t.title ≡ true = (eq_iff c.title t.title).1 same.title in
    let description : str_eq c.description t.description ≡ true =
      (eq_iff c.description t.description).1 same.description in
    let assignee = nullif_same c.assignee_user_id t.assignee_user_id same.assignee in
    let due = nullif_same c.due_on t.due_on same.due_on in
    let status : status_eq c.status t.status ≡ true = equal_status c.status t.status same.status in
    let priority : priority_eq c.priority t.priority ≡ true =
      equal_priority c.priority t.priority same.priority in
    rw
      (
        unchanged c.title_set _ title,
        unchanged c.description_set _ description,
        unchanged c.assignee_set _ assignee,
        unchanged c.due_on_set _ due,
        unchanged c.priority_set _ priority,
        unchanged c.status_set _ status,
      )
      refl
  where
    unchanged : (set same : Bool) → same ≡ true → (set && not same) ≡ false
    unchanged set same e = rw e (ground arith)

    equal_status : (a b : Status) → a ≡ b → status_eq a b ≡ true
    equal_status a b e = subst (λ x. status_eq a x ≡ true) e (ground arith)

    equal_priority : (a b : Priority) → a ≡ b → priority_eq a b ≡ true
    equal_priority a b e = subst (λ x. priority_eq a x ≡ true) e (ground arith)

-- An update after which the row that it names is the same in every column that users edit publishes
-- no event.
pub update_task_silent :
    (review_enabled : Bool) (accepts : Task → Bool) (command : UpdateTask) (s s' : Store)
    → update_task review_enabled accepts command s ≡ commit s'
    → ((t u : Task)
        → query_row (task_at command.organization_id command.id) s.tasks ≡ some t
        → query_row (task_at command.organization_id command.id) s'.tasks ≡ some u
        → Same t u)
    → s'.events ≡ s.events
unfolding completed_command written
update_task_silent review_enabled accepts command s s' h same =
    let (r, t, d) = update_task-Updated review_enabled accepts command s s' h in
    let at = task_at command.organization_id command.id in
    let c = completed_command t command in
    let now_at : query_row at s'.tasks ≡ some (written c t) =
      ap (query_row at) d.rows
      ∙ query_row-update_where at (written c) s.tasks (λ x e. key c x e) d.found in
    d.events
    ∙ ap (λ more. s.events ++ more) (written_silent c t (same t (written c t) d.found now_at))
    ∙ append-nil s.events
  where
    key :
        (c : UpdateTask) (x : Task)
        → task_at c.organization_id c.id x ≡ true
        → task_at c.organization_id c.id (written c x) ≡ true
    key c x e = e
