-- ===== src/Tasks/Invariant.antt =====
-- Nobody watches the task that they are assigned: CreateTask, UpdateTask and SetWatcher of
-- api/internal/postgres/work.go.
use plaiflowapp.Base.{
  ℕ, Bool, true, false, ◌&&◌, ◌||◌, ◌≡◌, refl, ◌∙◌, sym, subst, List, ◌∷◌, some, String, str_eq,
  arith, ◌==◌, if◌then◌else◌, In, Bool-cases, inl, inr, ◌⊎◌, eq_iff, false≢true,
}
use plaiflowapp.Sql.{
  commit, guard_passed, update_where, delete_where, rows_affected, query_row, eq_column,
}
use plaiflowapp.Sql.Rows.{
  query_row-In, In-update_where_hit, In-update_where_miss, In-update_where_back, In-delete_where,
}
use plaiflowapp.Sql.Counting.{rows_affected_pos}
use plaiflowapp.Tasks.{
  Task, CreateTask, UpdateTask, Watcher, Store, not_found, conflict, nullif, member_exists, task_at,
  watches_as, new_task, create_task,
}
use plaiflowapp.Tasks.Update.{completed_command, written, update_task}
use plaiflowapp.Tasks.Watching.{overlaps}
use plaiflowapp.Tasks.Changing.{update_task-Updated}

abbrev pub watches : Watcher → Task → Bool
watches w t = task_at w.organization_id w.task_id t

-- Each watcher watches a task of the table, and is not its assignee.
pub record IsWatched (tasks : List Task) (watchers : List Watcher) : Type 0 where
  pub there : (w : Watcher) → In w watchers → (t : Task) × In t tasks × (watches w t ≡ true)
  pub apart :
      (w : Watcher) (t : Task)
      → In w watchers
      → In t tasks
      → watches w t ≡ true
      → eq_column t.assignee_user_id w.user_id ≡ false

pub create_task-IsWatched :
    (accepts : Task → Bool) (c : CreateTask) (s s' : Store)
    → create_task accepts c s ≡ commit s'
    → IsWatched s.tasks s.watchers
    → IsWatched s'.tasks s'.watchers
unfolding create_task
create_task-IsWatched accepts c s s' h w =
    let (actor, h₁) =
      guard_passed (member_exists c.organization_id c.actor_user_id s) not_found _ h in
    let (known, h₂) =
      guard_passed
        (str_eq c.assignee_user_id "" || member_exists c.organization_id c.assignee_user_id s)
        not_found _ h₁ in
    let (fits, h₃) =
      guard_passed
        (accepts (new_task c) && (rows_affected (λ (t : Task). str_eq t.id c.id) s.tasks == 0))
        conflict _ h₂ in
    let tasks : new_task c ∷ s.tasks ≡ s'.tasks = cc in
    let watchers : s.watchers ≡ s'.watchers = cc in
    let fresh : rows_affected (λ (t : Task). str_eq t.id c.id) s.tasks ≡ 0 = ground arith in
    subst (λ y. IsWatched y s'.watchers) tasks
      (subst (IsWatched (new_task c ∷ s.tasks)) watchers record {
        there = λ x i. let (t, j, e) = w.there x i in (t, inr j, e);
        apart = λ x t i j e. elim j [
          | inr k ↦ w.apart x t i k e
          | inl new ↦
              let (u, k, hit) = w.there x i in
              let e' : task_at x.organization_id x.task_id (new_task c) ≡ true =
                subst (λ y. watches x y ≡ true) new e in
              let pos =
                rows_affected_pos (λ (t : Task). str_eq t.id c.id) s.tasks k
                  (same_id x u c hit e') in
              absurd (omega (arith, pos, fresh))
        ];
      })
  where
    same_id :
        (x : Watcher) (u : Task) (c : CreateTask)
        → task_at x.organization_id x.task_id u ≡ true
        → task_at x.organization_id x.task_id (new_task c) ≡ true
        → str_eq u.id c.id ≡ true
    same_id x u c h k =
        let a : u.id ≡ x.task_id = (eq_iff u.id x.task_id).0 (ground arith) in
        let b : c.id ≡ x.task_id = (eq_iff c.id x.task_id).0 (ground arith) in
        (eq_iff u.id c.id).1 (a ∙ sym b)

-- The watchers that an update leaves.
watchers_left : (organization id assignee : String) (ws : List Watcher) → List Watcher
watchers_left organization id assignee ws =
    if str_eq assignee "" then ws else delete_where (watches_as organization id assignee) ws

In-watchers_left :
    (organization id assignee : String) (ws : List Watcher) (w : Watcher)
    → In w (watchers_left organization id assignee ws)
    → In w ws × ((str_eq assignee "" ≡ true) ⊎ (watches_as organization id assignee w ≡ false))
unfolding watchers_left
In-watchers_left organization id assignee ws w i = elim (Bool-cases (str_eq assignee "")) [
  | inl empty ↦ (rw empty at i, inl empty)
  | inr full ↦
      let (j, out) = In-delete_where (watches_as organization id assignee) ws w (rw full at i) in
      (j, inr out)
]

-- The row that was written is not assigned to a watcher that is left.
written_apart :
    (c : UpdateTask) (t : Task) (w : Watcher)
    → task_at c.organization_id c.id t ≡ true
    → watches w t ≡ true
    → (str_eq c.assignee_user_id "" ≡ true)
      ⊎ (watches_as c.organization_id c.id c.assignee_user_id w ≡ false)
    → eq_column (nullif c.assignee_user_id) w.user_id ≡ false
written_apart c t w hit watched (inl empty) = rw empty refl
written_apart c t w hit watched (inr out) = elim (Bool-cases (str_eq c.assignee_user_id "")) [
  | inl empty ↦ rw empty refl
  | inr full ↦ elim (Bool-cases (str_eq c.assignee_user_id w.user_id)) [
    | inr other ↦ rw (full, other) refl
    | inl mine ↦
        let o : w.organization_id ≡ c.organization_id =
          sym ((eq_iff t.organization_id w.organization_id).0 (ground arith))
          ∙ (eq_iff t.organization_id c.organization_id).0 (ground arith) in
        let k : w.task_id ≡ c.id =
          sym ((eq_iff t.id w.task_id).0 (ground arith)) ∙ (eq_iff t.id c.id).0 (ground arith) in
        let a : w.user_id ≡ c.assignee_user_id =
          sym ((eq_iff c.assignee_user_id w.user_id).0 mine) in
        let o' : str_eq w.organization_id c.organization_id ≡ true =
          (eq_iff w.organization_id c.organization_id).1 o in
        let k' : str_eq w.task_id c.id ≡ true = (eq_iff w.task_id c.id).1 k in
        let a' : str_eq w.user_id c.assignee_user_id ≡ true =
          (eq_iff w.user_id c.assignee_user_id).1 a in
        absurd (false≢true (sym out ∙ rw (o', k', a') refl))
  ]
]

updated-IsWatched :
    (c : UpdateTask) (tasks : List Task) (ws : List Watcher)
    → IsWatched tasks ws
    → IsWatched
        (update_where (task_at c.organization_id c.id) (written c) tasks)
        (watchers_left c.organization_id c.id c.assignee_user_id ws)
unfolding written
updated-IsWatched c tasks ws w =
    let at = task_at c.organization_id c.id in
    record {
      there = λ x i.
          let (j, out) = In-watchers_left c.organization_id c.id c.assignee_user_id ws x i in
          let (t, k, e) = w.there x j in
          elim (Bool-cases (at t)) [
            | inl hit ↦ (written c t, In-update_where_hit at (written c) tasks hit k, e)
            | inr miss ↦ (t, In-update_where_miss at (written c) tasks miss k, e)
          ];
      apart = λ x t i k e.
          let (j, out) = In-watchers_left c.organization_id c.id c.assignee_user_id ws x i in
          elim (In-update_where_back at (written c) tasks t k) [
            | inl (old, miss) ↦ w.apart x t j old e
            | inr (u, old, hit, same) ↦
                let e' : watches x u ≡ true = subst (λ y. watches x y ≡ true) same e in
                subst (λ y. eq_column y.assignee_user_id x.user_id ≡ false) (sym same)
                  (written_apart c u x hit e' out)
          ];
    }

pub update_task-IsWatched :
    (review_enabled : Bool) (accepts : Task → Bool) (command : UpdateTask) (s s' : Store)
    → update_task review_enabled accepts command s ≡ commit s'
    → IsWatched s.tasks s.watchers
    → IsWatched s'.tasks s'.watchers
unfolding completed_command watchers_left
update_task-IsWatched review_enabled accepts command s s' h w =
    let (r, t, d) = update_task-Updated review_enabled accepts command s s' h in
    subst (λ y. IsWatched y s'.watchers) (sym d.rows)
      (subst
        (IsWatched (
          update_where (task_at command.organization_id command.id)
            (written (completed_command t command)) s.tasks))
        (sym d.watchers) (updated-IsWatched (completed_command t command) s.tasks s.watchers w))

pub removed-IsWatched :
    (tasks : List Task) (ws : List Watcher) (p : Watcher → Bool)
    → IsWatched tasks ws
    → IsWatched tasks (delete_where p ws)
removed-IsWatched tasks ws p w = record {
  there = λ x i. w.there x (In-delete_where p ws x i).0;
  apart = λ x t i. w.apart x t (In-delete_where p ws x i).0;
}

pub added-IsWatched :
    (tasks : List Task) (ws : List Watcher) (organization id user : String) (now : ℕ) {t : Task}
    → query_row (task_at organization id) tasks ≡ some t
    → rows_affected (overlaps organization id user) tasks ≡ 0
    → IsWatched tasks ws
    → IsWatched tasks (
        record { organization_id = organization; task_id = id; user_id = user; created_at = now }
        ∷ ws)
added-IsWatched tasks ws organization id user now {t} q none_overlaps w = record {
  there = λ x i. elim i [
    | inr j ↦ w.there x j
    | inl new ↦
        let (k, hit) = query_row-In (task_at organization id) tasks q in
        (t, k, subst (λ y. watches y t ≡ true) (sym new) hit)
  ];
  apart = λ x u i j e. elim i [
    | inr k ↦ w.apart x u k j e
    | inl new ↦
        let e' : task_at organization id u ≡ true = subst (λ y. watches y u ≡ true) new e in
        subst (λ y. eq_column u.assignee_user_id y.user_id ≡ false) (sym new)
          (elim (Bool-cases (eq_column u.assignee_user_id user)) [
            | inr out ↦ out
            | inl mine ↦
                let pos =
                  rows_affected_pos (overlaps organization id user) tasks j (rw (e', mine) refl) in
                absurd (omega (arith, pos, none_overlaps))
          ])
  ];
}
