-- ===== src/Auth/Callback.antt =====
-- The authorization of a browser and its callback, and the ends of sessions: `beginAuthorization`,
-- `callback`, `logout`, `logoutAll` and `unlink` of api/internal/auth/service.go.
use plaiflowapp.Base.{
  ℕ, ◌+◌, Bool, true, not, ◌&&◌, List, [], ◌∷◌, ◌++◌, Option, some, String, str_eq, ltb, is_some,
}
use plaiflowapp.Sql.{Tx, commit, rollback, ◌>>=◌, ◌>>◌, guard}
use plaiflowapp.Auth.{
  Purpose, to_login, to_link, to_reauth, other_purpose, ExternalIdentity, Transaction, Session,
  Store, is_empty, create_auth_transaction, consume_auth_transaction,
}
use plaiflowapp.Auth.Sessions.{insert_session, revoke_session, revoke_user_sessions}
use plaiflowapp.Auth.Accounts.{
  LinkRequest, UnlinkRequest, login, link_identity_and_rotate, reauthenticate_and_rotate,
  unlink_identity_and_rotate,
}
use plaiflowapp.Auth.Paths.{safe_return_path}
use plaiflowapp.Auth.Service.{
  Attempt, Provider, Service, Draws, Request, Answer, redirect, unauthorized, forbidden, not_found,
  unavailable, conflict, no_content, Cookie, secure, cleared, Reply, oauth_cookie_name, provider_at,
  or_return, or_answer, authenticate, valid_mutation, new_session_credentials, session_cookies,
  cleared_session_cookies, error_code, Refusal, or_error_page, initiator, new_attempt,
}

-- The attempt that `beginAuthorization` stores.
abbrev pub transaction_of :
    Service → Provider → Attempt → String → Purpose → String → Option Session → ℕ → Transaction
transaction_of svc p a browser purpose return_to session now = record {
  state_hash = svc.hash a.state;
  browser_hash = svc.hash browser;
  provider = p.name;
  issuer = p.issuer;
  purpose = purpose;
  nonce = a.nonce;
  code_verifier = a.code_verifier;
  return_to = return_to;
  initiating_user_id = (initiator session).0;
  initiating_session_id = (initiator session).1;
  created_at = now;
  expires_at = now + 600;
}

unfoldable pub begin_authorization :
    Service → Draws → Request → Purpose → Option Session → ℕ → Store → Reply × Store
begin_authorization svc d r purpose session now s = or_error_page (do
  p ← or_return (provider_at r.provider svc.providers) ("provider_unavailable", s)
  return_to ← or_return (safe_return_path svc.parse_url r.return_to) ("invalid_return", s)
  a ← or_return (new_attempt svc d) ("provider_unavailable", s)
  browser ← or_return d.browser ("provider_unavailable", s)
  s' ←
      or_answer
        (create_auth_transaction (transaction_of svc p a browser purpose return_to session now) s)
        (λ e. ("provider_unavailable", s))
  location ← or_return (p.authorization_url a) ("provider_unavailable", s')
  commit (
    record { answer = redirect location; cookies = secure oauth_cookie_name browser 600 true ∷ [] },
    s',
  ))

-- A handler's early answer, and the store at that point.
abbrev pub Early : Type 0
Early = Answer × Store

abbrev pub or_reply : Tx Early (Reply × Store) → Reply × Store
or_reply (commit done) = done
or_reply (rollback (answer, s)) = (record { answer = answer; cookies = [] }, s)

-- Authenticate, and ValidMutation.
unfoldable pub protected_session : Service → Request → ℕ → Store → Tx Early (Session × Store)
protected_session svc r now s = do
  x ← or_answer (authenticate svc r now s) (λ e. (unauthorized "unauthorized", s))
  guard (valid_mutation svc r x.0) (forbidden "csrf_rejected", x.1)
  commit x

unfoldable pub start_protected :
    Service → Draws → Request → Purpose → (ℕ → ℕ) → Store → Reply × Store
start_protected svc d r purpose now s = or_reply (do
  x ← protected_session svc r (now 0) s
  guard (not (ltb (x.0.authenticated_at + 600) (now 1))) (forbidden "recent_auth_required", x.1)
  commit (begin_authorization svc d r purpose (some x.0) (now 2) x.1))

-- The two branches of the callback that sign a user in, with the cookies of the new session.
unfoldable pub sign_in_new :
    Service → Draws → ExternalIdentity → ℕ → Store → Tx Refusal (List Cookie × Store)
sign_in_new svc d e now s = do
  x ← or_answer (login e d.user_id d.identity_id now s s) (λ why. ("identity_conflict", s))
  c ←
      or_return (new_session_credentials svc d x.0.user_id e.provider now)
        ("provider_unavailable", x.1)
  s' ← or_answer (insert_session c.session x.1) (λ why. ("provider_unavailable", x.1))
  commit (session_cookies c, s')

unfoldable pub sign_in_again :
    Service
    → Draws
    → Request
    → Transaction
    → ExternalIdentity
    → (ℕ → ℕ)
    → Store
    → Tx Refusal (List Cookie × Store)
sign_in_again svc d r t e now s = do
  x ← or_answer (authenticate svc r (now 2) s) (λ why. ("expired_attempt", s))
  guard (str_eq x.0.user_id t.initiating_user_id && str_eq x.0.id t.initiating_session_id)
      ("expired_attempt", x.1)
  c ←
      or_return (new_session_credentials svc d x.0.user_id e.provider (now 1))
        ("provider_unavailable", x.1)
  let q : LinkRequest = record {
    user_id = x.0.user_id;
    session_id = x.0.id;
    identity = e;
    new_session = c.session;
    now = now 1;
  }
  s' ←
      or_answer
        (elim t.purpose [
          | to_link ↦ link_identity_and_rotate q x.1
          | _ ↦ reauthenticate_and_rotate q x.1
        ])
        (λ why. (error_code why, x.1))
  commit (session_cookies c, s')

unfoldable pub sign_in :
    Service
    → Draws
    → Request
    → Transaction
    → ExternalIdentity
    → (ℕ → ℕ)
    → Store
    → Tx Refusal (List Cookie × Store)
sign_in svc d r t e now s = elim t.purpose [
  | to_login ↦ sign_in_new svc d e (now 1) s
  | to_link ↦ sign_in_again svc d r t e now s
  | to_reauth ↦ sign_in_again svc d r t e now s
  | other_purpose p ↦ rollback ("identity_conflict", s)
]

abbrev pub is_expected : Provider → ExternalIdentity → Bool
is_expected p e = str_eq e.provider p.name && str_eq e.issuer p.issuer && not (is_empty e.subject)

-- The checks of the callback after the attempt is consumed, and the identity that they leave.
unfoldable pub identify : Service → Request → Transaction → Store → Tx Refusal ExternalIdentity
identify svc r t s = do
  guard (not (is_empty r.state)) ("expired_attempt", s)
  p ← or_return (provider_at r.provider svc.providers) ("identity_conflict", s)
  guard (str_eq t.provider p.name && str_eq t.issuer p.issuer) ("identity_conflict", s)
  browser ← or_return r.oauth_cookie ("expired_attempt", s)
  guard (str_eq (svc.hash browser) t.browser_hash) ("expired_attempt", s)
  guard (is_empty r.error) ("access_denied", s)
  e ← or_return (p.exchange r.code t.code_verifier t.nonce) ("provider_unavailable", s)
  guard (is_expected p e) ("provider_unavailable", s)
  commit e

unfoldable pub callback_steps :
    Service → Draws → Request → (ℕ → ℕ) → Store → Tx Refusal (Reply × Store)
callback_steps svc d r now s = do
  x ←
      or_answer (consume_auth_transaction (svc.hash r.state) (now 0) s)
        (λ why. ("expired_attempt", s))
  e ← identify svc r x.0 x.1
  y ← sign_in svc d r x.0 e now x.1
  commit (
    record {
      answer = redirect x.0.return_to;
      cookies = y.0 ++ cleared oauth_cookie_name true ∷ [];
    },
    y.1,
  )

unfoldable pub callback : Service → Draws → Request → (ℕ → ℕ) → Store → Reply × Store
callback svc d r now s = or_error_page (callback_steps svc d r now s)

abbrev pub signed_out : Reply
signed_out = record { answer = no_content; cookies = cleared_session_cookies }

unfoldable pub logout : Service → Request → (ℕ → ℕ) → Store → Reply × Store
logout svc r now s = or_reply (do
  x ← protected_session svc r (now 0) s
  commit (signed_out, revoke_session x.0.id (now 1) x.1))

unfoldable pub logout_all : Service → Request → (ℕ → ℕ) → Store → Reply × Store
logout_all svc r now s = or_reply (do
  x ← protected_session svc r (now 0) s
  commit (signed_out, revoke_user_sessions x.0.user_id (now 1) x.1))

unfoldable pub unlink : Service → Draws → Request → (ℕ → ℕ) → Store → Reply × Store
unlink svc d r now s = or_reply (do
  x ← protected_session svc r (now 0) s
  guard (is_some (provider_at r.provider svc.providers)) (not_found "provider_unavailable", x.1)
  c ←
      or_return (new_session_credentials svc d x.0.user_id x.0.authenticated_provider (now 1))
        (unavailable "session_unavailable", x.1)
  let q : UnlinkRequest = record {
    user_id = x.0.user_id;
    session_id = x.0.id;
    provider = r.provider;
    new_session = c.session;
    now = now 2;
    cooldown_until = now 3 + 2592000;
  }
  s' ← or_answer (unlink_identity_and_rotate q x.1) (λ e. (conflict (error_code e), x.1))
  commit (record { answer = no_content; cookies = session_cookies c }, s'))
