-- ===== src/Deliveries.antt =====
-- The delivery of notifications to LINE: lineRetry and the deliveries of RunWorkOnce
-- (api/internal/worker/work.go), with CompleteLINEDelivery and FailLINEDelivery of
-- api/internal/postgres/work_worker.go. What the sender answers is a parameter.
pub mod Passes
use plaiflowapp.Base.{
  ℕ, zero, suc, ◌+◌, Bool, true, false, List, [], ◌∷◌, Option, none, some, String, str_eq,
  get_elem?, if◌then◌else◌,
}
use plaiflowapp.Sql.{update_where}
use plaiflowapp.Inbound.{delays}

pub data Status : Type 0 where
  pending processing retryable delivered failed : Status

-- A row of notification_deliveries.
pub record Delivery : Type 0 where
  pub id : String
  pub status : Status
  pub attempt_count : ℕ
  pub available_at : ℕ
  pub lease_expires_at : Option ℕ
  pub delivered_at : Option ℕ
  pub failure_code : String

-- How `Send` ends: without error, with ErrPermanentDelivery, or with another error.
pub data Outcome : Type 0 where
  sent permanent transient : Outcome

unfoldable pub line_retry : ℕ → Option ℕ
line_retry zero = none
line_retry (suc n) = get_elem? delays n

unfoldable pub complete_line_delivery : String → ℕ → List Delivery → List Delivery
complete_line_delivery id now =
    update_where (λ (d : Delivery). str_eq d.id id)
      (λ d. record d { status = delivered; delivered_at = some now; lease_expires_at = none })

-- `delay` is `none` where the delivery is not tried again; `clock` is the database's.
unfoldable pub fail_line_delivery : String → String → Option ℕ → ℕ → List Delivery → List Delivery
fail_line_delivery id code delay clock =
    update_where (λ (d : Delivery). str_eq d.id id)
      (λ d. record d {
        status = elim delay [ none ↦ failed | some t ↦ retryable ];
        attempt_count = d.attempt_count + 1;
        available_at = elim delay [ none ↦ clock | some t ↦ clock + t ];
        lease_expires_at = none;
        failure_code = code;
      })

-- What a goroutine of the pass does with the delivery that it was given.
unfoldable pub deliver : Delivery → Outcome → ℕ → ℕ → List Delivery → List Delivery
deliver d sent now clock = complete_line_delivery d.id now
deliver d permanent now clock = fail_line_delivery d.id "provider_failed" none clock
deliver d transient now clock =
    fail_line_delivery d.id "provider_failed" (line_retry (d.attempt_count + 1)) clock
