-- ===== src/Auth/Rotated.antt =====
-- What the transactions that rotate a session have checked and done when they succeed
-- (api/internal/postgres/auth.go).
use plaiflowapp.Base.{
  ℕ, ◌≤◌, true, false, not, ◌≡◌, refl, ap, ◌∙◌, some, String, str_eq, leb, ◌==◌, Option-cases, inl,
  inr, ◌⊎◌, any, arith, is_some, eq_iff,
}
use plaiflowapp.Sql.{
  commit, rollback, guard_passed, bind_passed, commit_injective, query_row, rows_affected,
  update_where,
}
use plaiflowapp.Auth.{
  Store, Identity, is_null, identity_conflict, recent_auth, last_identity, no_session, refused,
  SessionRecord,
}
use plaiflowapp.Auth.Sessions.{
  insert_session, revoke_session, revoke_user_sessions, rotate_session, is_session,
}
use plaiflowapp.Auth.Accounts.{
  LinkRequest, UnlinkRequest, link_identity_and_rotate, reauthenticate_and_rotate,
  unlink_identity_and_rotate, link_identity, insert_identity, Inserted, invalid, duplicate, stored,
  owns, is_fresh, is_recent, enabled_of, enabled_at, names, audited, disabled, linked_again,
}

pub rotate_session_lem :
    (old : String) (r : SessionRecord) (now : ℕ) (s s' : Store)
    → rotate_session old r now s ≡ commit s'
    → (rows_affected (is_session old) s.sessions ≡ 1)
      × (insert_session r (revoke_session old now s) ≡ commit s')
unfolding rotate_session
rotate_session_lem old r now s s' h =
    let (one, h₁) = guard_passed (rows_affected (is_session old) s.sessions == 1) no_session _ h in
    (ground arith, h₁)

-- The link enables a disabled row of the same user, or inserts one.
abbrev pub Linked : LinkRequest → Store → Store → Type 0
Linked q s s' =
    ((i : Identity) × (query_row (names q.identity) s.identities ≡ some i)
      × (i.user_id ≡ q.user_id)
      × (is_null i.disabled_at ≡ false)
      × (any (enabled_at i.user_id i.provider) s.identities ≡ false)
      × (record s {
        identities = update_where (names q.identity) (linked_again q.identity q.now) s.identities;
      }
          ≡ s'))
    ⊎ (insert_identity q.new_session.id q.user_id q.identity q.now s ≡ stored s')

pub link_identity_lem :
    (q : LinkRequest) (s s' : Store) → link_identity q s ≡ commit s' → Linked q s s'
unfolding link_identity
link_identity_lem q s s' h = elim (Option-cases (query_row (names q.identity) s.identities)) [
  | inr (i, e) ↦
      let h₀ = rw (link_identity, e) at h in
      let (mine, h₁) = guard_passed (str_eq i.user_id q.user_id) identity_conflict _ h₀ in
      let (off, h₂) = guard_passed (not (is_null i.disabled_at)) identity_conflict _ h₁ in
      let (only, h₃) =
        guard_passed (not (any (enabled_at i.user_id i.provider) s.identities)) identity_conflict _
          h₂ in
      inl
        (i, e, (eq_iff i.user_id q.user_id).0 mine, ground arith, ground arith, commit_injective h₃)
  | inl e ↦
      inserted (insert_identity q.new_session.id q.user_id q.identity q.now s) refl
        (rw (link_identity, e) at h)
]
  where
    inserted :
        (o : Inserted)
        → insert_identity q.new_session.id q.user_id q.identity q.now s ≡ o
        → elim o [
          | invalid ↦ rollback refused
          | duplicate ↦ rollback identity_conflict
          | stored t ↦ commit t
        ]
          ≡ commit s'
        → Linked q s s'
    inserted invalid is k = cc
    inserted duplicate is k = cc
    inserted (stored t) is k = let e : t ≡ s' = commit_injective k in inr (is ∙ ap stored e)

pub link_identity_and_rotate_lem :
    (q : LinkRequest) (s s' : Store)
    → link_identity_and_rotate q s ≡ commit s'
    → (t u : Store) × Linked q s t
      × (rotate_session q.session_id q.new_session q.now t ≡ commit u)
      × (audited q.user_id "auth.identity_link" q.identity.provider q.identity.subject u ≡ s')
unfolding link_identity_and_rotate
link_identity_and_rotate_lem q s s' h =
    let (recent, h₁) =
      guard_passed (is_some (query_row (is_recent q.user_id q.session_id q.now) s.sessions))
        recent_auth _ h in
    let (t, linked, h₂) = bind_passed (link_identity q s) _ h₁ in
    let (u, rotated, h₃) = bind_passed (rotate_session q.session_id q.new_session q.now t) _ h₂ in
    (t, u, link_identity_lem q s t linked, rotated, commit_injective h₃)

pub reauthenticate_and_rotate_lem :
    (q : LinkRequest) (s s' : Store)
    → reauthenticate_and_rotate q s ≡ commit s'
    → (i : Identity) × (query_row (owns q) s.identities ≡ some i)
      × (str_eq i.user_id q.user_id ≡ true)
      × (rotate_session q.session_id q.new_session q.now s ≡ commit s')
unfolding reauthenticate_and_rotate
reauthenticate_and_rotate_lem q s s' h = elim (Option-cases (query_row (owns q) s.identities)) [
  | inl e ↦
      let h' : rollback identity_conflict ≡ commit s' = rw (reauthenticate_and_rotate, e) at h in cc
  | inr (i, e) ↦
      let h₀ = rw (reauthenticate_and_rotate, e) at h in
      let (mine, h₁) = guard_passed (str_eq i.user_id q.user_id) identity_conflict _ h₀ in
      (i, e, mine, h₁)
]

abbrev pub without : UnlinkRequest → Store → Store
without q s = record s {
  identities = update_where (enabled_at q.user_id q.provider) (disabled q) s.identities;
}

pub unlink_identity_and_rotate_lem :
    (q : UnlinkRequest) (s s' : Store)
    → unlink_identity_and_rotate q s ≡ commit s'
    → (2 ≤ rows_affected (enabled_of q.user_id) s.identities)
      × (rows_affected (enabled_at q.user_id q.provider) s.identities ≡ 1)
      × (u : Store) × (insert_session q.new_session
            (revoke_user_sessions q.user_id q.now (without q s))
          ≡ commit u)
      × (audited q.user_id "auth.identity_unlink" q.provider q.provider u ≡ s')
unfolding unlink_identity_and_rotate
unlink_identity_and_rotate_lem q s s' h = elim (Option-cases (query_row (is_fresh q) s.sessions)) [
  | inl e ↦
      let h' : rollback recent_auth ≡ commit s' = rw (unlink_identity_and_rotate, e) at h in cc
  | inr (r, e) ↦
      let h₀ = rw (unlink_identity_and_rotate, e) at h in
      let (apart, h₁) =
        guard_passed (not (str_eq r.session.authenticated_provider q.provider)) recent_auth _ h₀ in
      let (two, h₂) =
        guard_passed (leb 2 (rows_affected (enabled_of q.user_id) s.identities)) last_identity _
          h₁ in
      let (one, h₃) =
        guard_passed (rows_affected (enabled_at q.user_id q.provider) s.identities == 1)
          last_identity _ h₂ in
      let (u, inserted, h₄) =
        bind_passed
          (insert_session q.new_session (revoke_user_sessions q.user_id q.now (without q s))) _
          h₃ in
      (ground arith, ground arith, u, inserted, commit_injective h₄)
]
