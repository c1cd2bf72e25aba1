-- ===== src/Auth/Writing.antt =====
-- What the transactions of api/internal/postgres/auth.go write to sessions, and that the register of
-- tokens is what they implement.
use plaiflowapp.Base.{
  ℕ, ◌+◌, ◌&&◌, ◌≡◌, sym, ap, subst, ◌∙◌, some, String, str_eq, leb, Bool-cases, Option-cases, inl,
  inr, arith,
}
use plaiflowapp.Sql.{
  Tx, commit, rollback, guard_passed, bind_passed, commit_injective, query_row, update_where,
}
use plaiflowapp.Auth.{
  Error, Session, SessionRecord, SessionRow, Store, refused, no_session, attempt_fits,
  create_auth_transaction, consume_auth_transaction,
}
use plaiflowapp.Auth.Sessions.{
  slide, touch, session_fits, insert_session, resolve_session, revoke_session, revoke_user_sessions,
  rotate_session, is_live, session_of,
}
use plaiflowapp.Auth.Accounts.{LinkRequest, login}
use plaiflowapp.Auth.Ops.{
  Op, starting, consuming, logging_in, creating, resolving, revoking, revoking_user, linking,
  reauthenticating, unlinking, exec,
}
use plaiflowapp.Auth.Passed.{
  Kept, same-Kept, consume_auth_transaction_lem, insert_identity_lem, login_lem, joined,
}
use plaiflowapp.Auth.Rotated.{
  rotate_session_lem, Linked, link_identity_and_rotate_lem, reauthenticate_and_rotate_lem,
  unlink_identity_and_rotate_lem, without,
}
use plaiflowapp.Auth.Vault.{spec, Allowed, view, is_of, has_id}
use plaiflowapp.Auth.Refinement.{Added, ended, Written, Written-spec}

sessions_of :
    {a b : Store} → ◌≡◌ {A = Tx Error Store} (commit a) (commit b) → a.sessions ≡ b.sessions
sessions_of h = cc

pub insert_session-Added :
    (r : SessionRecord) (s s' : Store)
    → insert_session r s ≡ commit s'
    → Added r s.sessions s'.sessions
unfolding insert_session session_fits
insert_session-Added r s s' h =
    let (fits, done) = guard_passed (session_fits r s) refused _ h in
    (ground arith, sessions_of done)

Linked-sessions : (q : LinkRequest) (s t : Store) → Linked q s t → s.sessions ≡ t.sessions
Linked-sessions q s t (inl (i, e, mine, off, only, is)) = ap (λ (x : Store). x.sessions) is
Linked-sessions q s t (inr is) =
    let (free, known, e) = insert_identity_lem q.new_session.id q.user_id q.identity q.now s t is in
    ap (λ (x : Store). x.sessions) e

rotate_session-Added :
    (old : String) (r : SessionRecord) (now : ℕ) (s s' : Store)
    → rotate_session old r now s ≡ commit s'
    → Added r (ended (has_id old) now s.sessions) s'.sessions
unfolding revoke_session
rotate_session-Added old r now s s' h =
    let (one, done) = rotate_session_lem old r now s s' h in
    insert_session-Added r (revoke_session old now s) s' done

-- A resolution keeps the rows, or touches some.
pub resolve_session-rows :
    (h : String) (now : ℕ) (s s' : Store) (x : Session)
    → resolve_session h now s ≡ commit (x, s')
    → (r : SessionRow) × (query_row (is_live h now) s.sessions ≡ some r)
      × ((idle : ℕ) × (x ≡ session_of r idle))
      × Written (resolving h now) s.sessions s'.sessions
      × Kept s s'
unfolding resolve_session Written
resolve_session-rows h now s s' x e = elim (Option-cases (query_row (is_live h now) s.sessions)) [
  | inl is ↦
      let e' : ◌≡◌ {A = Tx Error (Session × Store)} (rollback no_session) (commit (x, s')) =
        rw (resolve_session, is) at e in
      cc
  | inr (r, is) ↦
      let p = λ (y : SessionRow).
        str_eq y.session.id r.session.id && leb (y.session.last_seen_at + 300) now in
      let idle = slide now r.session.absolute_expires_at in
      let e₀ = rw (resolve_session, is) at e in
      elim (Bool-cases (leb (r.session.last_seen_at + 300) now)) [
        | inl old ↦
            let pair : (
              session_of r idle,
              record s { sessions = update_where p (touch now idle) s.sessions },
            )
                ≡ (x, s') =
              commit_injective (rw old at e₀) in
            (
              r,
              is,
              (idle, sym (ap (λ y. y.0) pair)),
              inr (p, idle, ap (λ (y : Session × Store). y.1.sessions) pair),
              same-Kept (ap (λ y. y.1) pair),
            )
        | inr fresh ↦
            let pair : (session_of r r.session.idle_expires_at, s) ≡ (x, s') =
              commit_injective (rw fresh at e₀) in
            (
              r,
              is,
              (r.session.idle_expires_at, sym (ap (λ y. y.0) pair)),
              inl (ap (λ (y : Session × Store). y.1.sessions) pair),
              same-Kept (ap (λ y. y.1) pair),
            )
      ]
]

pub exec-Written :
    (op : Op) (s s' : Store) → exec op s ≡ commit s' → Written op s.sessions s'.sessions
unfolding exec Written create_auth_transaction consume_auth_transaction revoke_session
    revoke_user_sessions
exec-Written (starting t) s s' h =
    let (fits, done) = guard_passed (attempt_fits t s) refused _ h in sessions_of done
exec-Written (consuming x now) s s' h =
    let ((t, u), first, done) = bind_passed (consume_auth_transaction x now s) _ h in
    let (a, is, of, e) = consume_auth_transaction_lem x now s u t first in
    ap (λ (y : Store). y.sessions) (e ∙ commit_injective done)
exec-Written (logging_in e u i now seen) s s' h =
    let ((r, t), first, done) = bind_passed (login e u i now seen s) _ h in
    let same : t ≡ s' = commit_injective done in
    elim (login_lem e u i now seen s t r first) [
      | inl k ↦ ap (λ (y : Store). y.sessions) (k ∙ same)
      | inr (w, new, is, k) ↦
          let (free, known, j) = insert_identity_lem i u e now (joined e u now s) w is in
          ap (λ (y : Store). y.sessions) j ∙ ap (λ (y : Store). y.sessions) (k ∙ same)
    ]
exec-Written (creating r) s s' h = insert_session-Added r s s' h
exec-Written (resolving x now) s s' h =
    let ((y, t), first, done) = bind_passed (resolve_session x now s) _ h in
    let same : t ≡ s' = commit_injective done in
    let (r, is, of, w, kept) = resolve_session-rows x now s t y first in
    subst (λ (z : Store). Written (resolving x now) s.sessions z.sessions) same w
exec-Written (revoking id now) s s' h = sessions_of h
exec-Written (revoking_user u now) s s' h = sessions_of h
exec-Written (linking q) s s' h =
    let (t, u, linked, rotated, done) = link_identity_and_rotate_lem q s s' h in
    let same = ap (λ (y : Store). y.sessions) done in
    let rows = sym (Linked-sessions q s t linked) in
    let added = rotate_session-Added q.session_id q.new_session q.now t u rotated in
    subst (λ y. Added q.new_session (ended (has_id q.session_id) q.now s.sessions) y) same
      (subst (λ y. Added q.new_session (ended (has_id q.session_id) q.now y) u.sessions) rows added)
exec-Written (reauthenticating q) s s' h =
    let (i, e, mine, rotated) = reauthenticate_and_rotate_lem q s s' h in
    rotate_session-Added q.session_id q.new_session q.now s s' rotated
exec-Written (unlinking q) s s' h =
    let (two, one, u, inserted, done) = unlink_identity_and_rotate_lem q s s' h in
    let added =
      insert_session-Added q.new_session (revoke_user_sessions q.user_id q.now (without q s)) u
        inserted in
    subst (λ y. Added q.new_session (ended (is_of q.user_id) q.now s.sessions) y)
      (ap (λ (y : Store). y.sessions) done) added

-- Each transaction that commits is one that the register of tokens allows, and its effect on the
-- register that the rows stand for is the effect of the abstract operation, for every token.
pub exec-spec :
    (op : Op) (s s' : Store)
    → exec op s ≡ commit s'
    → Allowed op (view s) × (view s' ≡ spec op (view s))
exec-spec op s s' h =
    let (may, same) = Written-spec op s.sessions s'.sessions (exec-Written op s s' h) in
    (may, λ i. λ k. same k i)
