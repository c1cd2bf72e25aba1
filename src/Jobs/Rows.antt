-- ===== src/Jobs/Rows.antt =====
-- What the schema demands of durable_jobs (api/migrations/000007_phase5_durable_jobs.up.sql), and
-- lemmas on updates and selections.
use plaiflowapp.Base.{
  ◌≤◌, ◌<◌, Bool, true, false, false≢true, ◌&&◌, ◌≡◌, refl, sym, ap, ◌∙◌, inl, inr, List, [], ◌∷◌,
  some, arith, String, str_eq, eq_iff, if◌then◌else◌, Bool-cases, In, All, is_some,
}
use plaiflowapp.Sql.{update_where, rows_affected, query_row}
use plaiflowapp.Sql.Rows.{All-In, All-update_where}
use plaiflowapp.Jobs.{Job, is_queued, is_running, is_completed, is_failed, is_cancelled}

-- The CHECK constraints of a row, and that a queued job has an attempt left.
pub record IsConsistent (r : Job) : Type 0 where
  pub attempts : r.attempt_count ≤ r.max_attempts
  pub max_range : (1 ≤ r.max_attempts) × (r.max_attempts ≤ 5)
  pub queued_left : is_queued r.status ≡ true → r.attempt_count < r.max_attempts
  pub leased : is_running r.status ≡ (
      is_some r.current_attempt_id
      && is_some r.lease_token_hash
      && is_some r.lease_expires_at
      && is_some r.worker_id)
  pub completed_stamp : is_completed r.status ≡ is_some r.completed_at
  pub failed_stamp : is_failed r.status ≡ is_some r.failed_at
  pub cancelled_stamp : is_cancelled r.status ≡ is_some r.cancelled_at

-- The primary key.
abbrev pub UniqueIds : List Job → Type 0
UniqueIds [] = Unit
UniqueIds (r ∷ rows) = All (λ (x : Job). str_eq x.id r.id ≡ false) rows × UniqueIds rows

pub record IsCoherent (rows : List Job) : Type 0 where
  pub valid : All IsConsistent rows
  pub unique : UniqueIds rows

-- Two ids found equal, in the other order.
same_id : (a b c : String) → str_eq a b ≡ true → a ≡ c → str_eq b c ≡ true
same_id a b c h e = (eq_iff b c).1 (sym ((eq_iff a b).0 h) ∙ e)

-- A fresh id is no row's id.
fresh_absurd :
    (x : Job) (rows : List Job) (r : Job)
    → All (λ (y : Job). str_eq y.id x.id ≡ false) rows
    → In r rows
    → str_eq r.id x.id ≡ true
    → ⊥
fresh_absurd x rows r fresh i e =
    false≢true (sym (All-In (λ (y : Job). str_eq y.id x.id ≡ false) rows fresh i) ∙ e)

abbrev id_of : Job → String
id_of r = r.id

-- The ids tell the rows of a table apart.
pub unique_row :
    (rows : List Job) {r q : Job}
    → UniqueIds rows
    → In r rows
    → In q rows
    → str_eq r.id q.id ≡ true
    → r ≡ q
unique_row [] u i j e = absurd i
unique_row (x ∷ rows) u (inl i) (inl j) e = i ∙ sym j
unique_row (x ∷ rows) {r} {q} (fresh, u) (inl i) (inr j) e =
    absurd (fresh_absurd x rows q fresh j (same_id r.id q.id x.id e (ap id_of i)))
unique_row (x ∷ rows) {r} {q} (fresh, u) (inr i) (inl j) e =
    absurd (fresh_absurd x rows r fresh i ((eq_iff _ _).1 ((eq_iff r.id q.id).0 e ∙ ap id_of j)))
unique_row (x ∷ rows) (fresh, u) (inr i) (inr j) e = unique_row rows u i j e

-- An update that changes no id keeps the ids apart.
pub UniqueIds-update_where :
    (p : Job → Bool) (f : Job → Job) (rows : List Job)
    → ((r : Job) → (f r).id ≡ r.id)
    → UniqueIds rows
    → UniqueIds (update_where p f rows)
unfolding update_where
UniqueIds-update_where p f [] keep u = tt
UniqueIds-update_where p f (x ∷ rows) keep (fresh, u) = (
  rw head_id (All-update_where p f rows (λ r i hit h. rw (keep r) h) fresh),
  UniqueIds-update_where p f rows keep u,
)
  where
    head_id : (if p x then f x else x).id ≡ x.id
    head_id = elim (Bool-cases (p x)) [ inl hit ↦ rw hit (keep x) | inr miss ↦ rw miss ]

-- A command whose condition fixes the id finds the one row that meets it.
module _ (k : String) (p : Job → Bool) (at_id : (x : Job) → p x ≡ true → str_eq x.id k ≡ true) where
  misses :
      (x : Job) (rows : List Job)
      → All (λ (y : Job). str_eq y.id x.id ≡ false) rows
      → p x ≡ true
      → rows_affected p rows ≡ 0
  unfolding rows_affected
  misses x [] fresh hit = refl
  misses x (y ∷ rows) (other, fresh) hit = elim (Bool-cases (p y)) [
    | inl hit' ↦ absurd (
        false≢true (
          sym other
          ∙ (eq_iff _ _).1
              ((eq_iff y.id k).0 (at_id y hit') ∙ sym ((eq_iff x.id k).0 (at_id x hit)))))
    | inr miss ↦ rw miss (omega (arith, misses x rows fresh hit))
  ]

  pub rows_affected-one :
      (rows : List Job) {r : Job}
      → UniqueIds rows
      → In r rows
      → p r ≡ true
      → rows_affected p rows ≡ 1
  unfolding rows_affected
  rows_affected-one [] u i hit = absurd i
  rows_affected-one (x ∷ rows) (fresh, u) (inl e) hit =
      let hit' : p x ≡ true = ap p (sym e) ∙ hit in
      rw hit' (omega (arith, misses x rows fresh hit'))
  rows_affected-one (x ∷ rows) {r} (fresh, u) (inr i) hit = elim (Bool-cases (p x)) [
    | inl hit' ↦ absurd (
        fresh_absurd x rows r fresh i (
          (eq_iff _ _).1
            ((eq_iff r.id k).0 (at_id r hit) ∙ sym ((eq_iff x.id k).0 (at_id x hit')))))
    | inr miss ↦ rw miss (omega (arith, rows_affected-one rows u i hit))
  ]

  pub query_row-found :
      (rows : List Job) {r : Job}
      → UniqueIds rows
      → In r rows
      → p r ≡ true
      → query_row p rows ≡ some r
  unfolding query_row
  query_row-found [] u i hit = absurd i
  query_row-found (x ∷ rows) u (inl e) hit =
      let hit' : p x ≡ true = ap p (sym e) ∙ hit in rw hit' (ap some (sym e))
  query_row-found (x ∷ rows) {r} (fresh, u) (inr i) hit = elim (Bool-cases (p x)) [
    | inl hit' ↦ absurd (
        fresh_absurd x rows r fresh i (
          (eq_iff _ _).1
            ((eq_iff r.id k).0 (at_id r hit) ∙ sym ((eq_iff x.id k).0 (at_id x hit')))))
    | inr miss ↦ rw miss (query_row-found rows u i hit)
  ]
