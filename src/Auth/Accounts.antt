-- ===== src/Auth/Accounts.antt =====
-- The transactions on identities: `Login`, `LinkIdentityAndRotate`, `ReauthenticateAndRotate` and
-- `UnlinkIdentityAndRotate` of api/internal/postgres/auth.go.
use plaiflowapp.Base.{
  ℕ, ◌+◌, Bool, true, false, not, ◌&&◌, ◌||◌, ◌∷◌, ◌++◌, [], Option, none, some, String, str_eq,
  ltb, leb, ◌==◌, if◌then◌else◌, any, is_some,
}
use plaiflowapp.Sql.{
  Tx, commit, rollback, ◌>>=◌, ◌>>◌, guard, update_where, rows_affected, query_row,
}
use plaiflowapp.Auth.{
  Error, identity_conflict, last_identity, recent_auth, refused, ExternalIdentity, SessionRecord,
  User, Identity, SessionRow, Store, is_null, empty_to_nil, is_provider,
}
use plaiflowapp.Auth.Sessions.{insert_session, rotate_session, revoke_user_sessions}

pub record LoginResult : Type 0 where
  pub user_id : String
  pub created : Bool

-- `LinkRequest` and `ReauthRequest`, which have the same fields.
pub record LinkRequest : Type 0 where
  pub user_id : String
  pub session_id : String
  pub identity : ExternalIdentity
  pub new_session : SessionRecord
  pub now : ℕ

pub record UnlinkRequest : Type 0 where
  pub user_id : String
  pub session_id : String
  pub provider : String
  pub new_session : SessionRecord
  pub now : ℕ
  pub cooldown_until : ℕ

-- WHERE issuer = … AND subject = …
abbrev pub names : ExternalIdentity → Identity → Bool
names e i = str_eq i.issuer e.issuer && str_eq i.subject e.subject

-- WHERE user_id = … AND disabled_at IS NULL
abbrev pub enabled_of : String → Identity → Bool
enabled_of user i = str_eq i.user_id user && is_null i.disabled_at

-- The same, AND provider = …
abbrev pub enabled_at : String → String → Identity → Bool
enabled_at user provider i = enabled_of user i && str_eq i.provider provider

-- An INSERT of an identity: a CHECK refuses it, a unique index does (23505), its user is missing,
-- or it is stored.
pub data Inserted : Type 0 where
  invalid duplicate : Inserted
  stored : Store → Inserted

abbrev pub new_identity : String → String → ExternalIdentity → ℕ → Identity
new_identity id user e now = record {
  id = id;
  user_id = user;
  provider = e.provider;
  issuer = e.issuer;
  subject = e.subject;
  email = empty_to_nil e.email;
  email_verified = e.email_verified;
  display_name = empty_to_nil e.display_name;
  picture_url = empty_to_nil e.picture_url;
  linked_at = now;
  disabled_at = none;
  cooldown_until = none;
}

abbrev pub clashes : String → String → ExternalIdentity → Identity → Bool
clashes id user e i = str_eq i.id id || names e i || enabled_at user e.provider i

unfoldable pub insert_identity : String → String → ExternalIdentity → ℕ → Store → Inserted
insert_identity id user e now s =
    if not (is_provider e.provider)
    then invalid
    else if any (clashes id user e) s.identities
    then duplicate
    else if any (λ (u : User). str_eq u.id user) s.users
    then stored (record s { identities = new_identity id user e now ∷ s.identities })
    else invalid

abbrev pub audited : String → String → String → String → Store → Store
audited actor event kind target s = record s {
  audit =
      s.audit
      ++ record {
        actor_user_id = actor;
        event_type = event;
        target_type = kind;
        target_id = target;
      }
        ∷ [];
}

-- `none` where no row names the identity.
unfoldable pub find_login : ExternalIdentity → Store → Option (Tx Error LoginResult)
find_login e s = elim (query_row (names e) s.identities) [
  | none ↦ none
  | some i ↦ some (
      if is_null i.disabled_at
      then commit (record { user_id = i.user_id; created = false })
      else rollback identity_conflict)
]

abbrev pub and_store : Store → Tx Error LoginResult → Tx Error (LoginResult × Store)
and_store s found = found >>= λ r. commit (r, s)

-- `seen` is the store that the first read sees, and `s` the one in which the transaction runs.
unfoldable pub login :
    ExternalIdentity → String → String → ℕ → Store → Store → Tx Error (LoginResult × Store)
login e user id now seen s = elim (find_login e seen) [
  | some found ↦ and_store s found
  | none ↦ do
    guard (not (any (λ (u : User). str_eq u.id user) s.users)) refused
    let joined : Store = record s {
      users =
          record {
            id = user;
            display_name = empty_to_nil e.display_name;
            picture_url = empty_to_nil e.picture_url;
            created_at = now;
            updated_at = now;
          }
          ∷ s.users;
    }
    elim (insert_identity id user e now joined) [
      | invalid ↦ rollback refused
      | duplicate ↦ elim (find_login e s) [
        | some found ↦ and_store s found
        | none ↦ rollback identity_conflict
      ]
      | stored s' ↦ commit (
        record { user_id = user; created = true },
        audited user "auth.login" "auth_identity" id s',
      )
    ]
]

-- `requireRecentSession`
abbrev pub is_recent : String → String → ℕ → SessionRow → Bool
is_recent user id now r =
    str_eq r.session.id id
    && str_eq r.session.user_id user
    && is_null r.revoked_at
    && ltb now r.session.idle_expires_at
    && ltb now r.session.absolute_expires_at
    && ltb now (r.session.authenticated_at + 600)

abbrev pub linked_again : ExternalIdentity → ℕ → Identity → Identity
linked_again e now i = record i {
  disabled_at = none;
  cooldown_until = none;
  email = empty_to_nil e.email;
  email_verified = e.email_verified;
  display_name = empty_to_nil e.display_name;
  picture_url = empty_to_nil e.picture_url;
  linked_at = now;
}

-- The `switch` of `LinkIdentityAndRotate`. The UPDATE of a disabled identity is refused by the index
-- on the enabled identities of a user.
unfoldable pub link_identity : LinkRequest → Store → Tx Error Store
link_identity q s = elim (query_row (names q.identity) s.identities) [
  | some i ↦ do
    guard (str_eq i.user_id q.user_id) identity_conflict
    guard (not (is_null i.disabled_at)) identity_conflict
    guard (not (any (enabled_at i.user_id i.provider) s.identities)) identity_conflict
    commit (record s {
      identities = update_where (names q.identity) (linked_again q.identity q.now) s.identities;
    })
  | none ↦ elim (insert_identity q.new_session.id q.user_id q.identity q.now s) [
    | invalid ↦ rollback refused
    | duplicate ↦ rollback identity_conflict
    | stored s' ↦ commit s'
  ]
]

unfoldable pub link_identity_and_rotate : LinkRequest → Store → Tx Error Store
link_identity_and_rotate q s = do
  guard (is_some (query_row (is_recent q.user_id q.session_id q.now) s.sessions)) recent_auth
  linked ← link_identity q s
  rotated ← rotate_session q.session_id q.new_session q.now linked
  commit (audited q.user_id "auth.identity_link" q.identity.provider q.identity.subject rotated)

abbrev pub owns : LinkRequest → Identity → Bool
owns q i = names q.identity i && is_null i.disabled_at

unfoldable pub reauthenticate_and_rotate : LinkRequest → Store → Tx Error Store
reauthenticate_and_rotate q s = elim (query_row (owns q) s.identities) [
  | none ↦ rollback identity_conflict
  | some i ↦ do
    guard (str_eq i.user_id q.user_id) identity_conflict
    rotate_session q.session_id q.new_session q.now s
]

-- The session that `UnlinkIdentityAndRotate` reads: recent, but with no test of its expiry.
abbrev pub is_fresh : UnlinkRequest → SessionRow → Bool
is_fresh q r =
    str_eq r.session.id q.session_id
    && str_eq r.session.user_id q.user_id
    && is_null r.revoked_at
    && ltb q.now (r.session.authenticated_at + 600)

abbrev pub disabled : UnlinkRequest → Identity → Identity
disabled q i = record i { disabled_at = some q.now; cooldown_until = some q.cooldown_until }

unfoldable pub unlink_identity_and_rotate : UnlinkRequest → Store → Tx Error Store
unlink_identity_and_rotate q s = elim (query_row (is_fresh q) s.sessions) [
  | none ↦ rollback recent_auth
  | some r ↦ do
    guard (not (str_eq r.session.authenticated_provider q.provider)) recent_auth
    guard (leb 2 (rows_affected (enabled_of q.user_id) s.identities)) last_identity
    guard (rows_affected (enabled_at q.user_id q.provider) s.identities == 1) last_identity
    let without : Store = record s {
      identities = update_where (enabled_at q.user_id q.provider) (disabled q) s.identities;
    }
    rotated ← insert_session q.new_session (revoke_user_sessions q.user_id q.now without)
    commit (audited q.user_id "auth.identity_unlink" q.provider q.provider rotated)
]
