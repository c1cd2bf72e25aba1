-- ===== src/Auth.antt =====
-- Accounts: the tables of users, identities, sessions and OAuth attempts, and their transactions
-- (api/internal/postgres/auth.go, with the records of api/internal/auth/service.go and auth.go and
-- the constraints of api/migrations/000002_phase1_auth_tenants.up.sql). Times are seconds. A hash is
-- the text of its bytes. A refusal by a constraint that has no error of its own is `refused`.
pub mod Sessions
pub mod Accounts
pub mod Ops
pub mod Paths
pub mod Service
pub mod Callback
pub mod Serving
pub mod Vault
pub mod Passed
pub mod Rotated
pub mod Refinement
pub mod Writing
pub mod Runs
pub mod Keeping
pub mod Reaching
pub mod SignIns
pub mod Handlers
pub mod Enrolled
pub mod Attempts
pub mod Identities
pub mod Opened
pub mod Requests
pub mod Logouts
pub mod Resolving
pub mod Ended
use plaiflowapp.Base.{
  ℕ, ◌+◌, Bool, true, false, not, ◌&&◌, ◌||◌, List, ◌∷◌, ◌++◌, [], Option, none, some, String,
  str_eq, ltb, leb, ◌==◌, if◌then◌else◌, any,
}
use plaiflowapp.Sql.{Tx, commit, rollback, ◌>>◌, guard, update_where, rows_affected, query_row}

pub data Error : Type 0 where
  no_attempt no_session identity_conflict last_identity recent_auth refused : Error

pub data Purpose : Type 0 where
  to_login to_link to_reauth : Purpose
  other_purpose : String → Purpose

pub record ExternalIdentity : Type 0 where
  pub provider : String
  pub issuer : String
  pub subject : String
  pub email : String
  pub email_verified : Bool
  pub display_name : String
  pub picture_url : String

pub record Transaction : Type 0 where
  pub state_hash : String
  pub browser_hash : String
  pub provider : String
  pub issuer : String
  pub purpose : Purpose
  pub nonce : String
  pub code_verifier : String
  pub return_to : String
  pub initiating_user_id : String
  pub initiating_session_id : String
  pub created_at : ℕ
  pub expires_at : ℕ

pub record SessionRecord : Type 0 where
  pub id : String
  pub user_id : String
  pub token_hash : String
  pub csrf_hash : String
  pub created_at : ℕ
  pub authenticated_at : ℕ
  pub last_seen_at : ℕ
  pub idle_expires_at : ℕ
  pub absolute_expires_at : ℕ
  pub authenticated_provider : String

-- What a request learns of its session.
pub record Session : Type 0 where
  pub id : String
  pub user_id : String
  pub csrf_hash : String
  pub authenticated_at : ℕ
  pub authenticated_provider : String
  pub idle_expires_at : ℕ
  pub absolute_expires_at : ℕ

pub record User : Type 0 where
  pub id : String
  pub display_name : Option String
  pub picture_url : Option String
  pub created_at : ℕ
  pub updated_at : ℕ

pub record Identity : Type 0 where
  pub id : String
  pub user_id : String
  pub provider : String
  pub issuer : String
  pub subject : String
  pub email : Option String
  pub email_verified : Bool
  pub display_name : Option String
  pub picture_url : Option String
  pub linked_at : ℕ
  pub disabled_at : Option ℕ
  pub cooldown_until : Option ℕ

pub record SessionRow : Type 0 where
  pub session : SessionRecord
  pub revoked_at : Option ℕ

pub record AttemptRow : Type 0 where
  pub attempt : Transaction
  pub consumed_at : Option ℕ

pub record AuditEvent : Type 0 where
  pub actor_user_id : String
  pub event_type : String
  pub target_type : String
  pub target_id : String

pub record Store : Type 0 where
  pub users : List User
  pub identities : List Identity
  pub sessions : List SessionRow
  pub attempts : List AttemptRow
  pub audit : List AuditEvent

abbrev pub is_null : Option ℕ → Bool
is_null none = true
is_null (some t) = false

abbrev pub is_empty : String → Bool
is_empty v = str_eq v ""

-- `emptyToNil`
abbrev pub empty_to_nil : String → Option String
empty_to_nil v = if is_empty v then none else some v

-- CHECK (provider IN ('line', 'google'))
abbrev pub is_provider : String → Bool
is_provider p = str_eq p "line" || str_eq p "google"

-- The CHECK on the purpose of an attempt: a login has no initiator, the others have one.
unfoldable pub initiator_fits : Transaction → Bool
initiator_fits t = elim t.purpose [
  | to_login ↦ is_empty t.initiating_user_id && is_empty t.initiating_session_id
  | to_link ↦ not (is_empty t.initiating_user_id) && not (is_empty t.initiating_session_id)
  | to_reauth ↦ not (is_empty t.initiating_user_id) && not (is_empty t.initiating_session_id)
  | other_purpose p ↦ false
]

abbrev pub has_state : String → AttemptRow → Bool
has_state h a = str_eq a.attempt.state_hash h

-- The constraints of auth_transactions, its references to users and sessions among them.
unfoldable pub attempt_fits : Transaction → Store → Bool
attempt_fits t s =
    is_provider t.provider
    && ltb t.created_at t.expires_at
    && initiator_fits t
    && not (any (has_state t.state_hash) s.attempts)
    && (is_empty t.initiating_user_id
        || any (λ (u : User). str_eq u.id t.initiating_user_id) s.users)
    && (is_empty t.initiating_session_id
        || any (λ (r : SessionRow). str_eq r.session.id t.initiating_session_id) s.sessions)

unfoldable pub create_auth_transaction : Transaction → Store → Tx Error Store
create_auth_transaction t s = do
  guard (attempt_fits t s) refused
  commit (record s { attempts = record { attempt = t; consumed_at = none } ∷ s.attempts })

abbrev pub is_open : String → ℕ → AttemptRow → Bool
is_open h now a = has_state h a && is_null a.consumed_at && ltb now a.attempt.expires_at

unfoldable pub consume_auth_transaction : String → ℕ → Store → Tx Error (Transaction × Store)
consume_auth_transaction h now s = elim (query_row (is_open h now) s.attempts) [
  | none ↦ rollback no_attempt
  | some a ↦ commit (
    a.attempt,
    record s {
      attempts =
          update_where (is_open h now) (λ (b : AttemptRow). record b { consumed_at = some now })
            s.attempts;
    },
  )
]
