-- ===== src/Samples/Auth.antt =====
-- A user with two identities, a session and an open attempt, and a service with one provider
-- (api/internal/auth/service.go, api/internal/postgres/auth.go).
use plaiflowapp.Base.{
  ℕ, ◌+◌, ◌<◌, true, false, ◌≡◌, refl, List, [], ◌∷◌, none, some, String, str_eq, arith, Bool-cases,
  inl, inr,
}
use plaiflowapp.Sql.Runs
use plaiflowapp.Sql.{commit, rollback, update_where, query_row, rows_affected}
use plaiflowapp.Auth.{
  no_session, to_login, ExternalIdentity, Transaction, SessionRecord, Session, User, Identity,
  SessionRow, Store, consume_auth_transaction,
}
use plaiflowapp.Auth.Sessions.{
  session_fits, insert_session, resolve_session, revoke_user_sessions, session_of,
}
use plaiflowapp.Auth.Accounts.{UnlinkRequest, find_login, login, unlink_identity_and_rotate}
use plaiflowapp.Auth.Ops.{creating, revoking, unlinking, exec, perform, run}
use plaiflowapp.Auth.Vault.{Allowed, spec, view}
use plaiflowapp.Auth.Service.{
  Provider, Service, Draws, Request, error_page, Cookie, provider_at, authenticate, valid_mutation,
  new_session_credentials,
}
use plaiflowapp.Auth.Callback.{
  sign_in_new, sign_in, identify, callback_steps, callback, protected_session, logout,
}
use plaiflowapp.Auth.Serving.{get_callback, post_unlink, Call, serve_all}
use plaiflowapp.Auth.Enrolled.{requests_enrolled}
use plaiflowapp.Auth.Runs.{UniqueTokens}
use plaiflowapp.Auth.Writing.{exec-spec}
use plaiflowapp.Auth.Ended.{Ends, ended_for_good, expired_for_good}
use plaiflowapp.Auth.Identities.{AllEnrolled}
use plaiflowapp.Auth.Opened.{WasOpen}
use plaiflowapp.Auth.Requests.{IsExpected, callback_signs_in, callback_once}
use plaiflowapp.Auth.Logouts.{logout_for_good}

abbrev identity_at : String → String → String → Identity
identity_at id provider subject = record {
  id = id;
  user_id = "u";
  provider = provider;
  issuer = provider;
  subject = subject;
  email = none;
  email_verified = false;
  display_name = none;
  picture_url = none;
  linked_at = 0;
  disabled_at = none;
  cooldown_until = none;
}

abbrev session_at : String → String → ℕ → SessionRecord
session_at id token now = record {
  id = id;
  user_id = "u";
  token_hash = token;
  csrf_hash = "csrf";
  created_at = now;
  authenticated_at = now;
  last_seen_at = now;
  idle_expires_at = now + 1209600;
  absolute_expires_at = now + 2592000;
  authenticated_provider = "line";
}

abbrev signed_row : SessionRow
signed_row = record { session = session_at "s" "t" 100; revoked_at = none }

abbrev open_attempt : Transaction
open_attempt = record {
  state_hash = "state";
  browser_hash = "browser";
  provider = "line";
  issuer = "line";
  purpose = to_login;
  nonce = "nonce";
  code_verifier = "verifier";
  return_to = "/setup";
  initiating_user_id = "";
  initiating_session_id = "";
  created_at = 100;
  expires_at = 700;
}

abbrev someone : User
someone = record {
  id = "u";
  display_name = none;
  picture_url = none;
  created_at = 0;
  updated_at = 0;
}

abbrev accounts : Store
accounts = record {
  users = someone ∷ [];
  identities = identity_at "i" "line" "x" ∷ identity_at "j" "google" "y" ∷ [];
  sessions = signed_row ∷ [];
  attempts = record { attempt = open_attempt; consumed_at = none } ∷ [];
  audit = [];
}

abbrev unlink_google : UnlinkRequest
unlink_google = record {
  user_id = "u";
  session_id = "s";
  provider = "google";
  new_session = session_at "s2" "t2" 200;
  now = 200;
  cooldown_until = 2592200;
}

accounts-UniqueTokens : UniqueTokens accounts.sessions
unfolding rows_affected
accounts-UniqueTokens h = elim (Bool-cases (str_eq "t" h)) [
  | inl here ↦ rw here (omega arith)
  | inr there ↦ rw there (omega arith)
]

accounts-AllEnrolled : AllEnrolled accounts.users accounts.identities
unfolding rows_affected
accounts-AllEnrolled u known = elim (Bool-cases (str_eq "u" u)) [
  | inl here ↦ rw here (omega arith)
  | inr there ↦ let known' : false ≡ true = rw there at known in cc
]

unfoldable unlinked : Store
unfolding Runs.perform exec unlink_identity_and_rotate insert_session session_fits
    revoke_user_sessions update_where query_row rows_affected
unlinked = perform (unlinking unlink_google) accounts

unlinked_eq : exec (unlinking unlink_google) accounts ≡ commit unlinked
unfolding unlinked Runs.perform exec unlink_identity_and_rotate insert_session session_fits
    revoke_user_sessions update_where query_row rows_affected
unlinked_eq = refl

exec-spec_example :
    Allowed (unlinking unlink_google) (view accounts)
    × (view unlinked ≡ spec (unlinking unlink_google) (view accounts))
exec-spec_example = exec-spec (unlinking unlink_google) accounts unlinked unlinked_eq

abbrev seen : Session
seen = session_of signed_row 1209700

resolved : resolve_session "t" 300 accounts ≡ commit (seen, accounts)
unfolding resolve_session query_row
resolved = refl

ended_for_good_example :
    resolve_session "t" 500 (
      run
        (creating (session_at "s3" "t3" 450) ∷ [])
        (perform (revoking "s" 400) (run (unlinking unlink_google ∷ []) accounts)))
    ≡ rollback no_session
unfolding Ends
ended_for_good_example =
    ended_for_good "t" 300 500 accounts accounts seen (unlinking unlink_google ∷ [])
      (revoking "s" 400) (creating (session_at "s3" "t3" 450) ∷ []) accounts-UniqueTokens resolved
      refl

expired_for_good_example :
    (300 < 2592100)
    × (resolve_session "t" 2592100 (run (creating (session_at "s3" "t3" 450) ∷ []) accounts)
        ≡ rollback no_session)
expired_for_good_example =
    expired_for_good "t" 300 2592100 accounts accounts seen
      (creating (session_at "s3" "t3" 450) ∷ []) accounts-UniqueTokens resolved (omega arith)

abbrev known : ExternalIdentity
known = record {
  provider = "line";
  issuer = "line";
  subject = "x";
  email = "";
  email_verified = false;
  display_name = "";
  picture_url = "";
}

abbrev line : Provider
line = record {
  name = "line";
  issuer = "line";
  authorization_url = λ a. some "https://line";
  exchange = λ code verifier nonce. some known;
}

abbrev service : Service
service = record {
  web_origin = "https://plaiflow";
  providers = line ∷ [];
  hash = λ v. v;
  challenge = λ v. v;
  parse_url = λ v. none;
}

abbrev draws : Draws
draws = record {
  state = some "state";
  nonce = some "nonce";
  verifier = some "verifier";
  browser = some "browser";
  token = some "t4";
  csrf = some "csrf4";
  user_id = "u4";
  identity_id = "i4";
  session_id = "s4";
}

abbrev request : Request
request = record {
  provider = "line";
  state = "state";
  error = "";
  code = "code";
  return_to = "";
  oauth_cookie = some "browser";
  session_cookie = some "t";
  origin = "https://plaiflow";
  csrf_header = "csrf";
  csrf_form = "";
}

abbrev at_300 : ℕ → ℕ
at_300 n = 300 + n

callback_signs_in_example :
    (t : Transaction) × (s₁ : Store) × (consume_auth_transaction "state" 300 accounts
      ≡ commit (t, s₁))
    × WasOpen "state" 300 accounts t
    × ("/setup" ≡ t.return_to)
    × (p : Provider) × (browser : String) × (e : ExternalIdentity) × IsExpected service request t e
        p browser
    × (cookies : List Cookie) × (sign_in service draws request t e at_300 s₁
        ≡ commit (cookies, (callback service draws request at_300 accounts).1))
unfolding callback callback_steps identify sign_in sign_in_new new_session_credentials provider_at
    consume_auth_transaction login find_login insert_session session_fits query_row update_where
callback_signs_in_example = callback_signs_in service draws request at_300 accounts "/setup" refl

unfoldable consumed_accounts : Store
unfolding update_where
consumed_accounts = record accounts {
  attempts = record { attempt = open_attempt; consumed_at = some 300 } ∷ [];
}

consumed_eq :
    consume_auth_transaction "state" 300 accounts ≡ commit (open_attempt, consumed_accounts)
unfolding consumed_accounts consume_auth_transaction query_row update_where
consumed_eq = refl

abbrev last : Store
last = run (revoking "s" 400 ∷ []) (callback service draws request at_300 accounts).1

callback_once_example :
    callback service draws request at_300 last
    ≡ (record { answer = error_page "expired_attempt"; cookies = [] }, last)
unfolding rows_affected
callback_once_example =
    callback_once service draws draws request request at_300 at_300 accounts consumed_accounts
      open_attempt (revoking "s" 400 ∷ []) (omega arith) consumed_eq refl

logout_for_good_example :
    (token : String) × (x : Session) × (s₁ : Store) × (some "t" ≡ some token)
    × (resolve_session token 300 accounts ≡ commit (x, s₁))
    × (valid_mutation service request x ≡ true)
    × (resolve_session token 1000 (
          run (creating (session_at "s3" "t3" 450) ∷ []) (logout service request at_300 accounts).1)
        ≡ rollback no_session)
unfolding logout protected_session authenticate valid_mutation resolve_session query_row
logout_for_good_example =
    logout_for_good service request at_300 accounts false (creating (session_at "s3" "t3" 450) ∷ [])
      1000 accounts-UniqueTokens refl

abbrev signing_in : Call
signing_in = record { route = get_callback; draws = draws; request = request; now = at_300 }

abbrev unlinking_line : Call
unlinking_line = record { route = post_unlink; draws = draws; request = request; now = at_300 }

requests_enrolled_example :
    AllEnrolled
      (serve_all service (signing_in ∷ unlinking_line ∷ unlinking_line ∷ []) accounts).users
      (serve_all service (signing_in ∷ unlinking_line ∷ unlinking_line ∷ []) accounts).identities
requests_enrolled_example =
    requests_enrolled service (signing_in ∷ unlinking_line ∷ unlinking_line ∷ []) accounts
      accounts-AllEnrolled
