-- ===== src/Auth/Sessions.antt =====
-- The sessions: `CreateSession`, `ResolveSession`, `RevokeSession`, `RevokeUserSessions` and
-- `rotateSession` of api/internal/postgres/auth.go.
use plaiflowapp.Base.{
  ℕ, ◌+◌, Bool, not, ◌&&◌, ◌∷◌, none, some, String, str_eq, ltb, leb, ◌==◌, if◌then◌else◌, any,
}
use plaiflowapp.Sql.{Tx, commit, rollback, ◌>>◌, guard, update_where, rows_affected, query_row}
use plaiflowapp.Auth.{
  Error, SessionRecord, Session, User, SessionRow, Store, is_null, is_provider, no_session, refused,
}

abbrev pub has_token : String → SessionRow → Bool
has_token h r = str_eq r.session.token_hash h

-- The constraints of sessions.
unfoldable pub session_fits : SessionRecord → Store → Bool
session_fits r s =
    is_provider r.authenticated_provider
    && leb r.created_at r.authenticated_at
    && leb r.authenticated_at r.absolute_expires_at
    && leb r.created_at r.last_seen_at
    && leb r.idle_expires_at r.absolute_expires_at
    && not (any (λ (x : SessionRow). str_eq x.session.id r.id) s.sessions)
    && not (any (has_token r.token_hash) s.sessions)
    && any (λ (u : User). str_eq u.id r.user_id) s.users

-- `CreateSession`, and `insertSession` in a transaction.
unfoldable pub insert_session : SessionRecord → Store → Tx Error Store
insert_session r s = do
  guard (session_fits r s) refused
  commit (record s { sessions = record { session = r; revoked_at = none } ∷ s.sessions })

abbrev pub is_live : String → ℕ → SessionRow → Bool
is_live h now r =
    has_token h r
    && is_null r.revoked_at
    && ltb now r.session.idle_expires_at
    && ltb now r.session.absolute_expires_at

abbrev pub session_of : SessionRow → ℕ → Session
session_of r idle = record {
  id = r.session.id;
  user_id = r.session.user_id;
  csrf_hash = r.session.csrf_hash;
  authenticated_at = r.session.authenticated_at;
  authenticated_provider = r.session.authenticated_provider;
  idle_expires_at = idle;
  absolute_expires_at = r.session.absolute_expires_at;
}

-- now.Add(14 * 24 * time.Hour), but not after the absolute expiry.
unfoldable pub slide : ℕ → ℕ → ℕ
slide now absolute = if ltb absolute (now + 1209600) then absolute else now + 1209600

abbrev pub touch : ℕ → ℕ → SessionRow → SessionRow
touch now idle r = record r {
  session = record r.session { last_seen_at = now; idle_expires_at = idle };
}

-- Of two statements: the second moves the expiry of a session that was last seen five minutes ago
-- or before.
unfoldable pub resolve_session : String → ℕ → Store → Tx Error (Session × Store)
resolve_session h now s = elim (query_row (is_live h now) s.sessions) [
  | none ↦ rollback no_session
  | some r ↦
      if leb (r.session.last_seen_at + 300) now
      then commit (
        session_of r (slide now r.session.absolute_expires_at),
        record s {
          sessions =
              update_where
                (λ (x : SessionRow).
                  str_eq x.session.id r.session.id && leb (x.session.last_seen_at + 300) now)
                (touch now (slide now r.session.absolute_expires_at)) s.sessions;
        },
      )
      else commit (session_of r r.session.idle_expires_at, s)
]

abbrev pub revoke : ℕ → SessionRow → SessionRow
revoke now r = record r { revoked_at = some now }

abbrev pub is_session : String → SessionRow → Bool
is_session id r = str_eq r.session.id id && is_null r.revoked_at

abbrev pub is_session_of : String → SessionRow → Bool
is_session_of user r = str_eq r.session.user_id user && is_null r.revoked_at

unfoldable pub revoke_session : String → ℕ → Store → Store
revoke_session id now s = record s {
  sessions = update_where (is_session id) (revoke now) s.sessions;
}

unfoldable pub revoke_user_sessions : String → ℕ → Store → Store
revoke_user_sessions user now s = record s {
  sessions = update_where (is_session_of user) (revoke now) s.sessions;
}

unfoldable pub rotate_session : String → SessionRecord → ℕ → Store → Tx Error Store
rotate_session old r now s = do
  guard (rows_affected (is_session old) s.sessions == 1) no_session
  insert_session r (revoke_session old now s)
