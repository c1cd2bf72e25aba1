-- ===== src/Auth/Resolving.antt =====
-- What a resolution of a token tells of the register, and when it is refused: `ResolveSession` of
-- api/internal/postgres/auth.go.
use plaiflowapp.Base.{
  ℕ, ◌<◌, true, ◌≡◌, refl, sym, ap, subst, ◌∙◌, some, String, Option-cases, inl, inr, arith,
}
use plaiflowapp.Sql.{commit, rollback, query_row}
use plaiflowapp.Sql.Rows.{query_row-In}
use plaiflowapp.Sql.Counting.{query_row_key}
use plaiflowapp.Auth.{Session, SessionRow, Store, no_session, is_null}
use plaiflowapp.Auth.Sessions.{has_token, resolve_session, is_live}
use plaiflowapp.Auth.Ops.{resolving}
use plaiflowapp.Auth.Vault.{Grant, active, grant_of, spec, view_rows, view}
use plaiflowapp.Auth.Refinement.{Written-spec}
use plaiflowapp.Auth.Writing.{resolve_session-rows}
use plaiflowapp.Auth.Runs.{UniqueTokens}

-- A live row is the one that the register shows.
pub live-view :
    (h : String) (now : ℕ) (s : Store) (r : SessionRow)
    → UniqueTokens s.sessions
    → query_row (is_live h now) s.sessions ≡ some r
    → (view s h ≡ active (grant_of r.session)) × (now < r.session.absolute_expires_at)
unfolding view_rows
live-view h now s r u e =
    let (i, hit) = query_row-In (is_live h now) s.sessions e in
    let here : has_token h r ≡ true = ground arith in
    let null : is_null r.revoked_at ≡ true = ground arith in
    let late : now < r.session.absolute_expires_at = ground arith in
    (rw (query_row_key (has_token h) s.sessions (u h) i here, null) refl, late)

-- A session that resolves is active in the register, and before its absolute expiry.
pub resolve_session-view :
    (h : String) (now : ℕ) (s s' : Store) (x : Session)
    → UniqueTokens s.sessions
    → resolve_session h now s ≡ commit (x, s')
    → (g : Grant) × (view s h ≡ active g)
      × (g.id ≡ x.id)
      × (g.user_id ≡ x.user_id)
      × (g.absolute_expires_at ≡ x.absolute_expires_at)
      × (now < x.absolute_expires_at)
      × (view s' h ≡ active g)
unfolding spec
resolve_session-view h now s s' x u e =
    let (r, is, (idle, of), w, kept) = resolve_session-rows h now s s' x e in
    let (here, late) = live-view h now s r u is in
    (
      grant_of r.session,
      here,
      sym (ap (λ (y : Session). y.id) of),
      sym (ap (λ (y : Session). y.user_id) of),
      sym (ap (λ (y : Session). y.absolute_expires_at) of),
      subst (λ (y : Session). now < y.absolute_expires_at) (sym of) late,
      (Written-spec (resolving h now) s.sessions s'.sessions w).1 h ∙ here,
    )

pub refused_unless :
    (h : String) (now : ℕ) (s : Store)
    → UniqueTokens s.sessions
    → ((g : Grant) → view s h ≡ active g → now < g.absolute_expires_at → ⊥)
    → resolve_session h now s ≡ rollback no_session
unfolding resolve_session
refused_unless h now s u never = elim (Option-cases (query_row (is_live h now) s.sessions)) [
  | inl e ↦ rw (resolve_session, e) refl
  | inr (r, e) ↦
      let (here, late) = live-view h now s r u e in absurd (never (grant_of r.session) here late)
]
