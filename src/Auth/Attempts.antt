-- ===== src/Auth/Attempts.antt =====
-- An OAuth attempt serves one callback: `CreateAuthTransaction` and `ConsumeAuthTransaction` among
-- the transactions of api/internal/postgres/auth.go.
use plaiflowapp.Base.{
  ℕ, ◌≤◌, ◌<◌, Bool, false, ◌&&◌, ◌≡◌, refl, ap, subst, ◌∙◌, List, ◌∷◌, some, none, String, str_eq,
  Bool-cases, Option-cases, inl, inr, any, arith, eq_iff,
}
use plaiflowapp.Sql.Runs.{run_keeps}
use plaiflowapp.Sql.{
  commit, rollback, guard_passed, bind_passed, commit_injective, query_row, rows_affected,
}
use plaiflowapp.Sql.Rows.{query_row-In}
use plaiflowapp.Sql.Counting.{
  rows_affected-any, rows_affected-update_where, rows_affected-update_where_same,
  rows_affected_mono, rows_affected_none, rows_affected_pos,
}
use plaiflowapp.Auth.{
  Transaction, AttemptRow, Store, is_null, has_state, is_open, attempt_fits,
  create_auth_transaction, consume_auth_transaction, refused, no_attempt,
}
use plaiflowapp.Auth.Sessions.{revoke_session, revoke_user_sessions}
use plaiflowapp.Auth.Accounts.{login}
use plaiflowapp.Auth.Passed.{
  consumed, consume_auth_transaction_lem, login_lem, insert_identity_lem, joined,
}
use plaiflowapp.Auth.Rotated.{
  link_identity_and_rotate_lem, reauthenticate_and_rotate_lem, unlink_identity_and_rotate_lem,
  without,
}
use plaiflowapp.Auth.Keeping.{
  insert_session-Kept, rotate_session-Kept, exec_resolving-Kept, Linked-rest,
}
use plaiflowapp.Auth.Ops.{
  Op, starting, consuming, logging_in, creating, resolving, revoking, revoking_user, linking,
  reauthenticating, unlinking, exec, run,
}

abbrev pub unconsumed : String → AttemptRow → Bool
unconsumed h a = has_state h a && is_null a.consumed_at

-- The attempt is there, and consumed.
abbrev pub IsUsed : String → List AttemptRow → Type 0
IsUsed h rows = (0 < rows_affected (has_state h) rows) × (rows_affected (unconsumed h) rows ≡ 0)

consumed-IsUsed :
    (h k : String) (now : ℕ) (s : Store)
    → IsUsed h s.attempts
    → IsUsed h (consumed k now s).attempts
consumed-IsUsed h k now s (there, gone) =
    let f = λ (b : AttemptRow). record b { consumed_at = some now } in
    let e =
      rows_affected-update_where_same (is_open k now) (has_state h) f s.attempts (λ r. refl) in
    let d = rows_affected-update_where (is_open k now) (unconsumed h) f s.attempts in
    let d' =
      rows_affected_none (λ a. is_open k now a && unconsumed h (f a)) s.attempts
        (λ a i. ground arith) in
    (omega (arith, e, there), omega (arith, d, d', gone))

exec-IsUsed :
    (h : String) (op : Op) (s s' : Store)
    → exec op s ≡ commit s'
    → IsUsed h s.attempts
    → IsUsed h s'.attempts
unfolding exec create_auth_transaction attempt_fits rows_affected revoke_session
    revoke_user_sessions
exec-IsUsed h (starting t) s s' e (there, gone) =
    let (fits, done) = guard_passed (attempt_fits t s) refused _ e in
    let free : any (has_state t.state_hash) s.attempts ≡ false = ground arith in
    let is : record s { attempts = record { attempt = t; consumed_at = none } ∷ s.attempts } ≡ s' =
      commit_injective done in
    subst (λ (y : Store). IsUsed h y.attempts) is
      (elim (Bool-cases (str_eq t.state_hash h)) [
        | inl same ↦
            let zero_left =
              subst (λ k. rows_affected (has_state k) s.attempts ≡ 0)
                ((eq_iff t.state_hash h).0 same)
                (rows_affected-any (has_state t.state_hash) s.attempts free) in
            absurd (omega (arith, zero_left, there))
        | inr other ↦ rw other (omega (arith, there), omega (arith, gone))
      ])
exec-IsUsed h (consuming k now) s s' e used =
    let ((t, u), first, done) = bind_passed (consume_auth_transaction k now s) _ e in
    let (a, is, of, same) = consume_auth_transaction_lem k now s u t first in
    subst (λ (y : Store). IsUsed h y.attempts) (same ∙ commit_injective done)
      (consumed-IsUsed h k now s used)
exec-IsUsed h (logging_in x u i now seen) s s' e used =
    let ((r, t), first, done) = bind_passed (login x u i now seen s) _ e in
    let same : t ≡ s' = commit_injective done in
    elim (login_lem x u i now seen s t r first) [
      | inl k ↦ subst (λ (y : Store). IsUsed h y.attempts) (k ∙ same) used
      | inr (w, new, is, k) ↦
          let (free, known, j) = insert_identity_lem i u x now (joined x u now s) w is in
          subst (IsUsed h)
            (ap (λ (y : Store). y.attempts) j ∙ ap (λ (y : Store). y.attempts) (k ∙ same)) used
    ]
exec-IsUsed h (creating r) s s' e used = subst (IsUsed h) (insert_session-Kept r s s' e).2 used
exec-IsUsed h (resolving x now) s s' e used =
    subst (IsUsed h) (exec_resolving-Kept x now s s' e).2 used
exec-IsUsed h (revoking id now) s s' e used =
    let is : revoke_session id now s ≡ s' = commit_injective e in
    subst (λ (y : Store). IsUsed h y.attempts) is used
exec-IsUsed h (revoking_user u now) s s' e used =
    let is : revoke_user_sessions u now s ≡ s' = commit_injective e in
    subst (λ (y : Store). IsUsed h y.attempts) is used
exec-IsUsed h (linking q) s s' e used =
    let (t, u, linked, rotated, done) = link_identity_and_rotate_lem q s s' e in
    let kept = rotate_session-Kept q.session_id q.new_session q.now t u rotated in
    subst (IsUsed h) ((Linked-rest q s t linked).1 ∙ kept.2 ∙ ap (λ (y : Store). y.attempts) done)
      used
exec-IsUsed h (reauthenticating q) s s' e used =
    let (i, is, mine, rotated) = reauthenticate_and_rotate_lem q s s' e in
    subst (IsUsed h) (rotate_session-Kept q.session_id q.new_session q.now s s' rotated).2 used
exec-IsUsed h (unlinking q) s s' e used =
    let (two, one, u, inserted, done) = unlink_identity_and_rotate_lem q s s' e in
    let kept =
      insert_session-Kept q.new_session (revoke_user_sessions q.user_id q.now (without q s)) u
        inserted in
    subst (IsUsed h) (kept.2 ∙ ap (λ (y : Store). y.attempts) done) used

first_use :
    (h : String) (now : ℕ) (s : Store) (a : AttemptRow)
    → rows_affected (has_state h) s.attempts ≤ 1
    → query_row (is_open h now) s.attempts ≡ some a
    → IsUsed h (consumed h now s).attempts
first_use h now s a few is =
    let f = λ (b : AttemptRow). record b { consumed_at = some now } in
    let (i, hit) = query_row-In (is_open h now) s.attempts is in
    let p = is_open h now in
    let there = rows_affected_pos (has_state h) s.attempts i (ground arith) in
    let matched = rows_affected_pos (λ x. p x && unconsumed h x) s.attempts i (ground arith) in
    let fewer = rows_affected_mono (unconsumed h) (has_state h) s.attempts (λ x e. ground arith) in
    let e = rows_affected-update_where_same p (has_state h) f s.attempts (λ r. refl) in
    let d = rows_affected-update_where p (unconsumed h) f s.attempts in
    let d' = rows_affected_none (λ x. p x && unconsumed h (f x)) s.attempts (λ x j. ground arith) in
    (omega (arith, e, there), omega (arith, d, d', matched, fewer, few))

-- Where one attempt at most has the hash of a state: once a callback has consumed it, after any
-- transactions and at any time consuming it again is refused with ErrAuthTransaction.
pub consumed_once :
    (h : String) (then now : ℕ) (s s₁ : Store) (t : Transaction) (ops : List Op)
    → rows_affected (has_state h) s.attempts ≤ 1
    → consume_auth_transaction h then s ≡ commit (t, s₁)
    → consume_auth_transaction h now (run ops s₁) ≡ rollback no_attempt
unfolding consume_auth_transaction
consumed_once h then now s s₁ t ops few e =
    let (a, is, of, same) = consume_auth_transaction_lem h then s s₁ t e in
    let used : IsUsed h s₁.attempts =
      subst (λ (y : Store). IsUsed h y.attempts) same (first_use h then s a few is) in
    let (there, gone) = run_keeps exec (λ y. IsUsed h y.attempts) (exec-IsUsed h) ops s₁ used in
    elim (Option-cases (query_row (is_open h now) (run ops s₁).attempts)) [
      | inl none_open ↦ rw (consume_auth_transaction, none_open) refl
      | inr (b, found) ↦
          let (i, hit) = query_row-In (is_open h now) (run ops s₁).attempts found in
          let pos = rows_affected_pos (unconsumed h) (run ops s₁).attempts i (ground arith) in
          absurd (omega (arith, pos, gone))
    ]
