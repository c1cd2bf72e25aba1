-- ===== src/Auth/Service.antt =====
-- What the handlers of api/internal/auth/service.go share. SHA-256 (`hash`), the parser of URLs, the
-- random values (`Draws`) and the readings of the clock in a request (`now 0`, `now 1`, …) are
-- parameters; a `Provider` is an interface of the source. A handler returns its reply and the store;
-- inside, a refusal carries the code of the error page and the store at that point.
use plaiflowapp.Base.{
  ℕ, ◌+◌, Bool, true, false, not, ◌&&◌, List, [], ◌∷◌, Option, none, some, String, str_eq,
  if◌then◌else◌,
}
use plaiflowapp.Sql.{Tx, commit, rollback}
use plaiflowapp.Auth.{
  Error, no_session, identity_conflict, last_identity, recent_auth, ExternalIdentity, SessionRecord,
  Session, Store, is_empty,
}
use plaiflowapp.Auth.Sessions.{resolve_session}
use plaiflowapp.Auth.Paths.{Url}

pub record Attempt : Type 0 where
  pub state : String
  pub nonce : String
  pub code_verifier : String
  pub code_challenge : String

pub record Provider : Type 0 where
  pub name : String
  pub issuer : String
  pub authorization_url : Attempt → Option String
  pub exchange : String → String → String → Option ExternalIdentity

pub record Service : Type 0 where
  pub web_origin : String
  pub providers : List Provider
  pub hash : String → String
  pub challenge : String → String
  pub parse_url : String → Option Url

-- `none` where the source of randomness fails.
pub record Draws : Type 0 where
  pub state : Option String
  pub nonce : Option String
  pub verifier : Option String
  pub browser : Option String
  pub token : Option String
  pub csrf : Option String
  pub user_id : String
  pub identity_id : String
  pub session_id : String

pub record Request : Type 0 where
  pub provider : String
  pub state : String
  pub error : String
  pub code : String
  pub return_to : String
  pub oauth_cookie : Option String
  pub session_cookie : Option String
  pub origin : String
  pub csrf_header : String
  pub csrf_form : String

pub data Answer : Type 0 where
  redirect : String → Answer
  error_page : String → Answer
  unauthorized forbidden not_found unavailable conflict : String → Answer
  no_content : Answer

pub data Cookie : Type 0 where
  secure : (name value : String) (max_age : ℕ) (http_only : Bool) → Cookie
  cleared : (name : String) (http_only : Bool) → Cookie

pub record Reply : Type 0 where
  pub answer : Answer
  pub cookies : List Cookie

abbrev pub session_cookie_name : String
session_cookie_name = "__Host-plaiflow-session"

abbrev pub csrf_cookie_name : String
csrf_cookie_name = "__Host-plaiflow-csrf"

abbrev pub oauth_cookie_name : String
oauth_cookie_name = "__Host-plaiflow-oauth"

-- `s.providers[name]`: the last provider that was configured with the name.
unfoldable pub provider_at : String → List Provider → Option Provider
provider_at name [] = none
provider_at name (p ∷ ps) =
    let rest = provider_at name ps in
    elim rest [ some q ↦ some q | none ↦ if str_eq p.name name then some p else none ]

abbrev pub or_return : {A E : Type 0} → Option A → E → Tx E A
or_return none e = rollback e
or_return (some a) e = commit a

-- A transaction of the store whose error the handler answers.
abbrev pub or_answer : {A E : Type 0} → Tx Error A → (Error → E) → Tx E A
or_answer (commit a) answer = commit a
or_answer (rollback why) answer = rollback (answer why)

unfoldable pub authenticate : Service → Request → ℕ → Store → Tx Error (Session × Store)
authenticate svc r now s = elim r.session_cookie [
  | none ↦ rollback no_session
  | some c ↦ if is_empty c then rollback no_session else resolve_session (svc.hash c) now s
]

unfoldable pub valid_mutation : Service → Request → Session → Bool
valid_mutation svc r x =
    let csrf = if is_empty r.csrf_header then r.csrf_form else r.csrf_header in
    str_eq r.origin svc.web_origin && not (is_empty csrf) && str_eq (svc.hash csrf) x.csrf_hash

pub record Credentials : Type 0 where
  pub session : SessionRecord
  pub token : String
  pub csrf : String

unfoldable pub new_session_credentials : Service → Draws → String → String → ℕ → Option Credentials
new_session_credentials svc d user provider now = elim d.token [
  | none ↦ none
  | some token ↦ elim d.csrf [
    | none ↦ none
    | some csrf ↦ some (record {
      session = record {
        id = d.session_id;
        user_id = user;
        token_hash = svc.hash token;
        csrf_hash = svc.hash csrf;
        created_at = now;
        authenticated_at = now;
        last_seen_at = now;
        idle_expires_at = now + 1209600;
        absolute_expires_at = now + 2592000;
        authenticated_provider = provider;
      };
      token = token;
      csrf = csrf;
    })
  ]
]

abbrev pub session_cookies : Credentials → List Cookie
session_cookies c =
    secure session_cookie_name c.token 2592000 true
    ∷ secure csrf_cookie_name c.csrf 2592000 false
    ∷ []

abbrev pub cleared_session_cookies : List Cookie
cleared_session_cookies = cleared session_cookie_name true ∷ cleared csrf_cookie_name false ∷ []

unfoldable pub error_code : Error → String
error_code identity_conflict = "identity_conflict"
error_code last_identity = "last_identity"
error_code recent_auth = "recent_auth_required"
error_code _ = "provider_unavailable"

-- A refusal: the code of the error page, and the store.
abbrev pub Refusal : Type 0
Refusal = String × Store

-- The reply to a browser that comes from, or goes to, a provider.
abbrev pub or_error_page : Tx Refusal (Reply × Store) → Reply × Store
or_error_page (commit done) = done
or_error_page (rollback (code, s)) = (record { answer = error_page code; cookies = [] }, s)

abbrev pub initiator : Option Session → String × String
initiator none = ("", "")
initiator (some x) = (x.user_id, x.id)

-- `NewAttempt`
unfoldable pub new_attempt : Service → Draws → Option Attempt
new_attempt svc d = elim d.state [
  | none ↦ none
  | some state ↦ elim d.nonce [
    | none ↦ none
    | some nonce ↦ elim d.verifier [
      | none ↦ none
      | some verifier ↦ some (record {
        state = state;
        nonce = nonce;
        code_verifier = verifier;
        code_challenge = svc.challenge verifier;
      })
    ]
  ]
]
