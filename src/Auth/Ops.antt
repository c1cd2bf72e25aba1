-- ===== src/Auth/Ops.antt =====
-- Every transaction of api/internal/postgres/auth.go that writes, as one type of commands, and the
-- store after a sequence of them.
use plaiflowapp.Base.{ℕ, List, String}
use plaiflowapp.Sql.{Tx, commit, ◌>>=◌}
use plaiflowapp.Sql.Runs
use plaiflowapp.Auth.{
  Error, ExternalIdentity, Transaction, SessionRecord, Store, create_auth_transaction,
  consume_auth_transaction,
}
use plaiflowapp.Auth.Sessions.{
  insert_session, resolve_session, revoke_session, revoke_user_sessions,
}
use plaiflowapp.Auth.Accounts.{
  LinkRequest, UnlinkRequest, login, link_identity_and_rotate, reauthenticate_and_rotate,
  unlink_identity_and_rotate,
}

pub data Op : Type 0 where
  starting : Transaction → Op
  consuming : (state_hash : String) (now : ℕ) → Op
  logging_in : (e : ExternalIdentity) (user_id identity_id : String) (now : ℕ) (seen : Store) → Op
  creating : SessionRecord → Op
  resolving : (token_hash : String) (now : ℕ) → Op
  revoking : (id : String) (now : ℕ) → Op
  revoking_user : (user_id : String) (now : ℕ) → Op
  linking : LinkRequest → Op
  reauthenticating : LinkRequest → Op
  unlinking : UnlinkRequest → Op

unfoldable pub exec : Op → Store → Tx Error Store
exec (starting t) s = create_auth_transaction t s
exec (consuming h now) s = consume_auth_transaction h now s >>= λ r. commit r.1
exec (logging_in e u i now seen) s = login e u i now seen s >>= λ r. commit r.1
exec (creating r) s = insert_session r s
exec (resolving h now) s = resolve_session h now s >>= λ r. commit r.1
exec (revoking id now) s = commit (revoke_session id now s)
exec (revoking_user u now) s = commit (revoke_user_sessions u now s)
exec (linking q) s = link_identity_and_rotate q s
exec (reauthenticating q) s = reauthenticate_and_rotate q s
exec (unlinking q) s = unlink_identity_and_rotate q s

abbrev pub perform : Op → Store → Store
perform = Runs.perform exec

abbrev pub run : List Op → Store → Store
run = Runs.run exec
