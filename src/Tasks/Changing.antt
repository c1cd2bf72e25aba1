-- ===== src/Tasks/Changing.antt =====
-- What `UpdateTask` does to the row, to the others and to the events
-- (api/internal/postgres/work.go).
use plaiflowapp.Base.{
  Bool, true, false, ◌||◌, ◌≡◌, refl, ap, ◌∙◌, sym, subst, List, [], ◌∷◌, ◌++◌, none, some, String,
  str_eq, arith, if◌then◌else◌, In, Option-cases, Bool-cases, inl, inr, ◌⊎◌, ◌≢◌, eq_iff,
}
use plaiflowapp.Sql.{commit, rollback, guard_passed, update_where, delete_where, query_row}
use plaiflowapp.Sql.Rows.{In-update_where_miss}
use plaiflowapp.Tenant.{Role, current_role}
use plaiflowapp.Tasks.{
  Status, status_eq, done, Task, UpdateTask, Store, not_found, forbidden, conflict, nullif,
  coalesce, manager, member_exists, task_at, watches_as,
}
use plaiflowapp.Tasks.Update.{
  completed_command, may_update, written, reviewer_fits, changes, update_task,
}

-- The update of the row `t` by a user of the role `r`.
pub record Updated (command : UpdateTask) (s s' : Store) (r : Role) (t : Task) : Type 0 where
  pub by : current_role command.actor_user_id command.organization_id s.tenant ≡ some r
  pub found : query_row (task_at command.organization_id command.id) s.tasks ≡ some t
  pub may : may_update r t command ≡ true
  pub rows :
      s'.tasks
      ≡ update_where
          (task_at command.organization_id command.id)
          (written (completed_command t command))
          s.tasks
  pub watchers : s'.watchers ≡ (
      if str_eq (completed_command t command).assignee_user_id ""
      then s.watchers
      else delete_where
          (watches_as command.organization_id command.id
            (completed_command t command).assignee_user_id)
          s.watchers)
  pub events : s'.events ≡ s.events ++ changes t (completed_command t command)

pub update_task-Updated :
    (review_enabled : Bool) (accepts : Task → Bool) (command : UpdateTask) (s s' : Store)
    → update_task review_enabled accepts command s ≡ commit s'
    → (r : Role) × (t : Task) × Updated command s s' r t
unfolding update_task completed_command
update_task-Updated review_enabled accepts command s s' h =
    elim (Option-cases (current_role command.actor_user_id command.organization_id s.tenant)) [
      | inl e ↦ let h₁ : rollback not_found ≡ commit s' = rw (update_task, e) at h in absurd (cc)
      | inr (r, e) ↦
          elim (Option-cases (query_row (task_at command.organization_id command.id) s.tasks)) [
            | inl f ↦
                let h₁ : rollback not_found ≡ commit s' = rw (update_task, e, f) at h in absurd (cc)
            | inr (t, f) ↦
                let h₁ = rw (update_task, e, f) at h in
                let c = completed_command t command in
                let (may, h₂) = guard_passed (may_update r t command) forbidden _ h₁ in
                let (known, h₃) =
                  guard_passed
                    (str_eq c.assignee_user_id ""
                      || member_exists c.organization_id c.assignee_user_id s)
                    not_found _ h₂ in
                let (fit, h₄) = guard_passed (reviewer_fits review_enabled c s) forbidden _ h₃ in
                let (ok, h₅) = guard_passed (accepts (written c t)) conflict _ h₄ in
                (
                  r,
                  t,
                  record { by = e; found = f; may = may; rows = cc; watchers = cc; events = cc },
                )
          ]
    ]

-- The actor may: a manager, the creator, or the assignee who changes the status alone.
abbrev pub MayChange : UpdateTask → Role → Task → Type 0
MayChange c r t =
    (manager r ≡ true)
    ⊎ ((str_eq t.creator_user_id c.actor_user_id ≡ true)
        × ((c.status_set ≡ false) ⊎ (str_eq (coalesce t.assignee_user_id) c.actor_user_id ≡ true)))
    ⊎ ((str_eq (coalesce t.assignee_user_id) c.actor_user_id ≡ true)
        × ((c.title_set || c.description_set || c.assignee_set || c.due_on_set || c.priority_set)
            ≡ false))
    ⊎ ((c.title_set || c.description_set || c.assignee_set || c.due_on_set || c.priority_set
          || c.status_set)
        ≡ false)

may_update-MayChange :
    (r : Role) (t : Task) (c : UpdateTask) → may_update r t c ≡ true → MayChange c r t
unfolding may_update
may_update-MayChange r t c h = ground arith

-- The row that a query selects, after an update of the rows that it selects.
pub query_row-update_where :
    {A : Type 0} (p : A → Bool) (f : A → A) (rows : List A) {r : A}
    → ((x : A) → p x ≡ true → p (f x) ≡ true)
    → query_row p rows ≡ some r
    → query_row p (update_where p f rows) ≡ some (f r)
unfolding query_row update_where
query_row-update_where p f [] k h = cc
query_row-update_where p f (x ∷ rows) {r} k h = elim (Bool-cases (p x)) [
  | inl hit ↦
      let h' : some x ≡ some r = rw hit at h in
      let e : x ≡ r = cc in rw (hit, k x hit) (ap (λ y. some (f y)) e)
  | inr miss ↦ rw (miss, miss) (query_row-update_where p f rows k (rw miss at h))
]

-- The row `u` that `command` makes of the row `t`: in each column that users edit the value of the
-- command if the command sets it, and else that of `t`. A NULL assignee or date is read as "".
pub record Edits (command : UpdateTask) (t u : Task) : Type 0 where
  pub id : u.id ≡ t.id
  pub organization : u.organization_id ≡ t.organization_id
  pub title : u.title ≡ (if command.title_set then command.title else t.title)
  pub description :
      u.description ≡ (if command.description_set then command.description else t.description)
  pub assignee :
      coalesce u.assignee_user_id
      ≡ (if command.assignee_set then command.assignee_user_id else coalesce t.assignee_user_id)
  pub due_on :
      coalesce u.due_on ≡ (if command.due_on_set then command.due_on else coalesce t.due_on)
  pub status : u.status ≡ (if command.status_set then command.status else t.status)
  pub priority : u.priority ≡ (if command.priority_set then command.priority else t.priority)
  pub status_changed_at :
      ((u.status ≡ t.status) × (u.status_changed_at ≡ t.status_changed_at))
      ⊎ ((u.status ≢ t.status) × (u.status_changed_at ≡ command.now))
  pub creator : u.creator_user_id ≡ t.creator_user_id
  pub created_at : u.created_at ≡ t.created_at
  pub updated_at : u.updated_at ≡ command.now
  pub completed :
      ((u.status ≡ done)
        × (u.completed_at ≡ some command.now)
        × (u.completed_by_user_id ≡ some command.actor_user_id))
      ⊎ ((u.status ≢ done) × (u.completed_at ≡ none) × (u.completed_by_user_id ≡ none))

coalesce-nullif : (v : String) → coalesce (nullif v) ≡ v
coalesce-nullif v = elim (Bool-cases (str_eq v "")) [
  | inl e ↦ rw e (sym ((eq_iff v "").0 e))
  | inr e ↦ rw e refl
]

Status-cases :
    (a b : Status) → ((status_eq a b ≡ true) × (a ≡ b)) ⊎ ((status_eq a b ≡ false) × (a ≢ b))
Status-cases a b = ground arith

written-Edits : (c : UpdateTask) (t : Task) → Edits c t (written (completed_command t c) t)
unfolding written completed_command
written-Edits c t = record {
  id = refl;
  organization = refl;
  title = refl;
  description = refl;
  assignee = coalesce-nullif _;
  due_on = coalesce-nullif _;
  status = refl;
  priority = refl;
  status_changed_at = moved (if c.status_set then c.status else t.status);
  creator = refl;
  created_at = refl;
  updated_at = refl;
  completed = finished (if c.status_set then c.status else t.status);
}
  where
    moved :
        (x : Status)
        → ((x ≡ t.status)
            × ((if status_eq t.status x then t.status_changed_at else c.now) ≡ t.status_changed_at))
          ⊎ ((x ≢ t.status)
              × ((if status_eq t.status x then t.status_changed_at else c.now) ≡ c.now))
    moved x = elim (Status-cases t.status x) [
      | inl (e, same) ↦ inl (sym same, rw e refl)
      | inr (e, apart) ↦ inr (λ p. apart (sym p), rw e refl)
    ]

    finished :
        (x : Status)
        → ((x ≡ done)
            × ((if status_eq x done then some c.now else none) ≡ some c.now)
            × ((if status_eq x done then some c.actor_user_id else none) ≡ some c.actor_user_id))
          ⊎ ((x ≢ done)
              × ((if status_eq x done then some c.now else none) ≡ none)
              × ((if status_eq x done then some c.actor_user_id else none) ≡ none))
    finished x = elim (Status-cases x done) [
      | inl (e, same) ↦ inl (same, rw e refl, rw e refl)
      | inr (e, apart) ↦ inr (apart, rw e refl, rw e refl)
    ]

-- An update that succeeds was allowed to the actor. It changes the row that it names, so that each
-- column that users edit has the command's value if the command sets it, and else keeps its own (a
-- NULL assignee or due date counting as the empty text); the status is dated anew only if it
-- changed; and the row is completed, by the actor and at the time of the command, exactly if its
-- status is now Done, also where it was Done before. Every other task stays.
pub update_task_lem :
    (review_enabled : Bool) (accepts : Task → Bool) (command : UpdateTask) (s s' : Store)
    → update_task review_enabled accepts command s ≡ commit s'
    → (r : Role) × (t u : Task) × (current_role command.actor_user_id command.organization_id
          s.tenant
        ≡ some r)
      × (query_row (task_at command.organization_id command.id) s.tasks ≡ some t)
      × (query_row (task_at command.organization_id command.id) s'.tasks ≡ some u)
      × MayChange command r t
      × Edits command t u
      × ((x : Task)
          → task_at command.organization_id command.id x ≡ false
          → In x s.tasks
          → In x s'.tasks)
unfolding written
update_task_lem review_enabled accepts command s s' h =
    let (r, t, d) = update_task-Updated review_enabled accepts command s s' h in
    let at = task_at command.organization_id command.id in
    let change = written (completed_command t command) in
    (
      r,
      t,
      change t,
      d.by,
      d.found,
      ap (query_row at) d.rows ∙ query_row-update_where at change s.tasks (λ x e. e) d.found,
      may_update-MayChange r t command d.may,
      written-Edits command t,
      λ x miss j. subst (In x) (sym d.rows) (In-update_where_miss at change s.tasks miss j),
    )
