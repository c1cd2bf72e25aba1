-- ===== src/Auth/Runs.antt =====
-- Sequences of the transactions of api/internal/postgres/auth.go, and what they keep of the register
-- of tokens.
use plaiflowapp.Base.{
  ℕ, ◌≤◌, Bool, ◌&&◌, ◌≡◌, refl, sym, subst, List, String, str_eq, Bool-cases, inl, inr, arith,
  eq_iff,
}
use plaiflowapp.Sql.{commit, rows_affected}
use plaiflowapp.Sql.Runs.{run_keeps}
use plaiflowapp.Sql.Counting.{rows_affected-any, rows_affected-update_where_same}
use plaiflowapp.Auth.{SessionRecord, SessionRow, Store, is_null}
use plaiflowapp.Auth.Sessions.{has_token, revoke, touch}
use plaiflowapp.Auth.Ops.{
  Op, starting, consuming, logging_in, creating, resolving, revoking, revoking_user, linking,
  reauthenticating, unlinking, exec, run,
}
use plaiflowapp.Auth.Vault.{
  Grant, grant_of, is_of, has_id, view, Later, Later-refl, Later-trans, spec-Later,
}
use plaiflowapp.Auth.Refinement.{Added, ended, Written}
use plaiflowapp.Auth.Writing.{exec-Written, exec-spec}

-- The unique index on the hashes of tokens.
abbrev pub UniqueTokens : List SessionRow → Type 0
UniqueTokens rows = (h : String) → rows_affected (has_token h) rows ≤ 1

ended-UniqueTokens :
    (q : Grant → Bool) (now : ℕ) (rows : List SessionRow)
    → UniqueTokens rows
    → UniqueTokens (ended q now rows)
ended-UniqueTokens q now rows u h =
    let e =
      rows_affected-update_where_same (λ r. q (grant_of r.session) && is_null r.revoked_at)
        (has_token h) (revoke now) rows (λ r. refl) in
    omega (arith, e, u h)

Added-UniqueTokens :
    (r : SessionRecord) (rows rows' : List SessionRow)
    → Added r rows rows'
    → UniqueTokens rows
    → UniqueTokens rows'
unfolding rows_affected
Added-UniqueTokens r rows rows' (free, e) u h =
    subst (λ x. rows_affected (has_token h) x ≤ 1) e
      (elim (Bool-cases (str_eq r.token_hash h)) [
        | inl here ↦
            let same = (eq_iff r.token_hash h).0 here in
            let zero_left =
              subst (λ k. rows_affected (has_token k) rows ≡ 0) same
                (rows_affected-any (has_token r.token_hash) rows free) in
            rw here (omega (arith, zero_left))
        | inr there ↦ rw there (omega (arith, u h))
      ])

Written-UniqueTokens :
    (op : Op) (rows rows' : List SessionRow)
    → Written op rows rows'
    → UniqueTokens rows
    → UniqueTokens rows'
unfolding Written
Written-UniqueTokens (creating r) rows rows' w u = Added-UniqueTokens r rows rows' w u
Written-UniqueTokens (revoking id now) rows rows' e u =
    subst UniqueTokens e (ended-UniqueTokens (has_id id) now rows u)
Written-UniqueTokens (revoking_user x now) rows rows' e u =
    subst UniqueTokens e (ended-UniqueTokens (is_of x) now rows u)
Written-UniqueTokens (linking q) rows rows' w u =
    Added-UniqueTokens q.new_session (ended (has_id q.session_id) q.now rows) rows' w
      (ended-UniqueTokens (has_id q.session_id) q.now rows u)
Written-UniqueTokens (reauthenticating q) rows rows' w u =
    Added-UniqueTokens q.new_session (ended (has_id q.session_id) q.now rows) rows' w
      (ended-UniqueTokens (has_id q.session_id) q.now rows u)
Written-UniqueTokens (unlinking q) rows rows' w u =
    Added-UniqueTokens q.new_session (ended (is_of q.user_id) q.now rows) rows' w
      (ended-UniqueTokens (is_of q.user_id) q.now rows u)
Written-UniqueTokens (resolving h now) rows rows' (inl e) u = subst UniqueTokens e u
Written-UniqueTokens (resolving h now) rows rows' (inr (p, idle, e)) u = subst UniqueTokens e λ k.
    let same = rows_affected-update_where_same p (has_token k) (touch now idle) rows (λ r. refl) in
    omega (arith, same, u k)
Written-UniqueTokens (starting t) rows rows' e u = subst UniqueTokens e u
Written-UniqueTokens (consuming h now) rows rows' e u = subst UniqueTokens e u
Written-UniqueTokens (logging_in x y i now seen) rows rows' e u = subst UniqueTokens e u

pub run-UniqueTokens :
    (ops : List Op) (s : Store) → UniqueTokens s.sessions → UniqueTokens (run ops s).sessions
run-UniqueTokens =
    run_keeps exec (λ s. UniqueTokens s.sessions)
      λ op s s' h. Written-UniqueTokens op s.sessions s'.sessions (exec-Written op s s' h)

pub exec-Later :
    (h : String) (op : Op) (s s' : Store) → exec op s ≡ commit s' → Later (view s h) (view s' h)
exec-Later h op s s' done =
    let (may, same) = exec-spec op s s' done in
    subst (λ v. Later (view s h) (v h)) (sym same) (spec-Later op (view s) h may)

pub run-Later : (h : String) (ops : List Op) (s : Store) → Later (view s h) (view (run ops s) h)
run-Later h ops s =
    run_keeps exec (λ t. Later (view s h) (view t h))
      (λ op t t' done k.
        Later-trans (view s h) (view t h) (view t' h) k (exec-Later h op t t' done))
      ops s (Later-refl (view s h))
