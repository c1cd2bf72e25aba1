-- ===== src/Auth/Keeping.antt =====
-- What the transactions of api/internal/postgres/auth.go keep of the tables beside sessions.
use plaiflowapp.Base.{ℕ, ◌≡◌, ap, subst, ◌∷◌, none, String, inl, inr}
use plaiflowapp.Sql.{commit, guard_passed, bind_passed, commit_injective}
use plaiflowapp.Auth.{SessionRecord, Store, refused}
use plaiflowapp.Auth.Sessions.{
  rotate_session, insert_session, session_fits, resolve_session, revoke_session,
}
use plaiflowapp.Auth.Accounts.{LinkRequest}
use plaiflowapp.Auth.Passed.{Kept, same-Kept, insert_identity_lem}
use plaiflowapp.Auth.Rotated.{Linked, rotate_session_lem}
use plaiflowapp.Auth.Writing.{resolve_session-rows}
use plaiflowapp.Auth.Ops.{resolving, exec}

pub insert_session-Kept :
    (r : SessionRecord) (s s' : Store) → insert_session r s ≡ commit s' → Kept s s'
unfolding insert_session
insert_session-Kept r s s' h =
    let (fits, done) = guard_passed (session_fits r s) refused _ h in
    let e : record s { sessions = record { session = r; revoked_at = none } ∷ s.sessions } ≡ s' =
      commit_injective done in
    same-Kept e

pub rotate_session-Kept :
    (old : String) (r : SessionRecord) (now : ℕ) (s s' : Store)
    → rotate_session old r now s ≡ commit s'
    → Kept s s'
unfolding revoke_session
rotate_session-Kept old r now s s' h =
    let (one, done) = rotate_session_lem old r now s s' h in
    insert_session-Kept r (revoke_session old now s) s' done

pub exec_resolving-Kept :
    (h : String) (now : ℕ) (s s' : Store) → exec (resolving h now) s ≡ commit s' → Kept s s'
unfolding exec
exec_resolving-Kept h now s s' e =
    let ((y, t), first, done) = bind_passed (resolve_session h now s) _ e in
    let same : t ≡ s' = commit_injective done in
    let (r, is, of, w, kept) = resolve_session-rows h now s t y first in subst (Kept s) same kept

pub Linked-rest :
    (q : LinkRequest) (s t : Store) → Linked q s t → (s.users ≡ t.users) × (s.attempts ≡ t.attempts)
Linked-rest q s t (inl (i, e, mine, off, only, is)) =
    (ap (λ (x : Store). x.users) is, ap (λ (x : Store). x.attempts) is)
Linked-rest q s t (inr is) =
    let (free, known, e) = insert_identity_lem q.new_session.id q.user_id q.identity q.now s t is in
    (ap (λ (x : Store). x.users) e, ap (λ (x : Store). x.attempts) e)
