-- ===== src/Inbound.antt =====
-- The queue of events that LINE delivers: api/internal/inbound/inbound.go, Claim, Complete, Fail and
-- Cleanup of api/internal/postgres/store.go, and RunOnce of api/internal/worker/worker.go.
pub mod Retries
pub mod Passes
pub mod Ended
use plaiflowapp.Base.{
  ℕ, ◌+◌, ◌*◌, Bool, true, false, not, ◌&&◌, ◌||◌, List, [], ◌∷◌, Option, none, some, String,
  str_eq, ltb, leb, ◌==◌, if◌then◌else◌, any, map, take, is_some, get_elem?, zero, suc,
}
use plaiflowapp.Sql.{order_by, insert_by, update_where, delete_where, select_where, expired_at}

pub data Status : Type 0 where
  received processing processed retryable failed ignored : Status

abbrev pub is_processing : Status → Bool
is_processing processing = true
is_processing _ = false

abbrev pub is_waiting : Status → Bool
is_waiting received = true
is_waiting retryable = true
is_waiting _ = false

-- status IN ('Processed','Ignored','Failed')
abbrev pub is_terminal : Status → Bool
is_terminal processed = true
is_terminal ignored = true
is_terminal failed = true
is_terminal _ = false

-- A row of inbound_events, with the columns that the commands read and write.
pub record Event : Type 0 where
  pub id : ℕ
  pub event_type : String
  pub payload : Option String
  pub status : Status
  pub attempt_count : ℕ
  pub received_at : ℕ
  pub available_at : ℕ
  pub lease_expires_at : Option ℕ
  pub processed_at : Option ℕ
  pub failure_code : String
  pub failure_message : String

abbrev pub second : ℕ
second = 1000000000

abbrev pub minute : ℕ
minute = 60 * second

abbrev pub delays : List ℕ
delays = minute ∷ 5 * minute ∷ 30 * minute ∷ 120 * minute ∷ 720 * minute ∷ []

-- `none` is the answer false.
unfoldable pub retry_delay : ℕ → Option ℕ
retry_delay zero = none
retry_delay (suc n) = get_elem? delays n

abbrev pub outcome_for_type : String → Status
outcome_for_type event_type = if str_eq event_type "message" then processed else ignored

unfoldable pub is_eligible : ℕ → Event → Bool
is_eligible now e =
    (is_waiting e.status && leb e.available_at now)
    || (is_processing e.status && expired_at e.lease_expires_at now)

-- ORDER BY available_at, id
abbrev pub before : Event → Event → Bool
before a b =
    if a.available_at == b.available_at then ltb a.id b.id else ltb a.available_at b.available_at

abbrev pub leased : ℕ → Event → Event
leased until e = record e { status = processing; lease_expires_at = some until }

-- The ids that the selection returns; `locked` are the rows that another transaction holds.
unfoldable pub selected : (ℕ → Bool) → ℕ → ℕ → List Event → List Event
selected locked limit now rows =
    take limit (order_by before (select_where (λ e. is_eligible now e && not (locked e.id)) rows))

-- The rows after the claim, and the rows that it returns.
unfoldable pub claim : (ℕ → Bool) → ℕ → ℕ → ℕ → List Event → List Event × List Event
claim locked limit lease now rows =
    let chosen = selected locked limit now rows in
    let is_chosen = λ (e : Event). any (λ (x : Event). x.id == e.id) chosen in
    (update_where is_chosen (leased (now + lease)) rows, map (leased (now + lease)) chosen)

unfoldable pub is_ignored : Status → Bool
is_ignored ignored = true
is_ignored _ = false

unfoldable pub completed_row : Status → String → ℕ → Event → Event
completed_row status reason now e = record e {
  status = status;
  processed_at = some now;
  lease_expires_at = none;
  failure_code = if is_ignored status then "unsupported_event_type" else "";
  failure_message = if is_ignored status then reason else "";
}

unfoldable pub complete : ℕ → Status → String → ℕ → List Event → List Event
complete id status reason now =
    update_where (λ (e : Event). e.id == id) (completed_row status reason now)

-- The row after a failure of the event that was claimed with `attempt_count`.
unfoldable pub failed_row : ℕ → String → String → ℕ → Event → Event
failed_row attempt_count code message now e = elim (retry_delay (attempt_count + 1)) [
  | some delay ↦ record e {
    status = retryable;
    attempt_count = attempt_count + 1;
    available_at = now + delay;
    lease_expires_at = none;
    failure_code = code;
    failure_message = message;
    processed_at = none;
  }
  | none ↦ record e {
    status = failed;
    attempt_count = attempt_count + 1;
    available_at = now;
    lease_expires_at = none;
    failure_code = code;
    failure_message = message;
    processed_at = some now;
  }
]

unfoldable pub fail : Event → String → String → ℕ → List Event → List Event
fail event code message now =
    update_where (λ (e : Event). e.id == event.id) (failed_row event.attempt_count code message now)

abbrev pub day : ℕ
day = 24 * 60 * minute

-- The WHERE clause `terminal`, with rows received more than `age` ago.
abbrev pub terminal_before : ℕ → ℕ → Event → Bool
terminal_before age now e =
    ltb (e.received_at + age) now && is_terminal e.status && not (is_some e.lease_expires_at)

unfoldable pub cleanup : ℕ → List Event → List Event
cleanup now rows = delete_where (terminal_before (90 * day) now) (
    update_where (λ (e : Event). is_some e.payload && terminal_before (30 * day) now e)
      (λ e. record e { payload = none }) rows)

-- What a handler says of an event: a status and a reason, or `none` for an error.
abbrev pub ProcessFunc : Type 0
ProcessFunc = Event → Option (Status × String)

abbrev pub record_only : ProcessFunc
record_only e =
    if is_ignored (outcome_for_type e.event_type)
    then some (outcome_for_type e.event_type, "No Phase 0 handler for this event type")
    else some (outcome_for_type e.event_type, "")

-- The loop of `RunOnce`, at one time for all its commands.
unfoldable pub run_events : ProcessFunc → ℕ → List Event → List Event → List Event
run_events process now [] rows = rows
run_events process now (e ∷ events) rows = run_events process now events (elim (process e) [
  | none ↦ fail e "processing_failed" "Event processing failed" now rows
  | some (status, reason) ↦ complete e.id status reason now rows
])

unfoldable pub run_once : (ℕ → Bool) → ProcessFunc → ℕ → List Event → List Event
run_once locked process now rows =
    let (leased_rows, events) = claim locked 25 minute now rows in
    run_events process now events leased_rows
