-- ===== src/Samples/Inbound.antt =====
-- A queue with an event that waits and one that was processed (api/internal/postgres/store.go).
use plaiflowapp.Base.{
  ℕ, ◌+◌, ◌≤◌, ◌<◌, Bool, true, false, ◌≡◌, refl, sym, ap, ◌∙◌, inl, inr, ◌⊎◌, List, [], ◌∷◌, none,
  some, String, arith, In, is_some, map, str_eq, Bool-cases, Option,
}
use plaiflowapp.Sql.{update_where, select_where, order_by, insert_by}
use plaiflowapp.Inbound.{
  Event, Status, received, processed, ignored, is_processing, is_terminal, failed_row, minute,
  is_eligible, leased, selected, claim, complete, completed_row, record_only, run_events, run_once,
  is_ignored,
}
use plaiflowapp.Inbound.Retries.{pauses, failures, failed_row_lem, failures_end}
use plaiflowapp.Inbound.Passes.{Ends, run_once_settles}
use plaiflowapp.Inbound.Ended.{UniqueEvents, run_once_keeps_ended}

abbrev fresh : Event
fresh = record {
  id = 1;
  event_type = "message";
  payload = some "{}";
  status = received;
  attempt_count = 0;
  received_at = 10;
  available_at = 10;
  lease_expires_at = none;
  processed_at = none;
  failure_code = "";
  failure_message = "";
}

abbrev finished : Event
finished = record fresh { id = 2; status = processed; processed_at = some 12 }

abbrev rows : List Event
rows = fresh ∷ finished ∷ []

abbrev unlocked : ℕ → Bool
unlocked id = false

-- The fifth failure, after four.
failed_row_lem_example :
    let f = failed_row 4 "processing_failed" "" 20 (record fresh { attempt_count = 4 }) in
    (f.attempt_count ≡ 4 + 1)
    × (is_some f.lease_expires_at ≡ false)
    × (((4 < 4) × (is_terminal f.status ≡ true) × (is_some f.processed_at ≡ true))
        ⊎ ((4 ≤ 4)
            × (is_terminal f.status ≡ false)
            × ((t : ℕ) × In (4, t) pauses × (f.available_at ≡ 20 + t))))
failed_row_lem_example =
    failed_row_lem (record fresh { attempt_count = 4 }) "processing_failed" "" 20

failures_end_example :
    is_terminal (failures "c" "" (1 ∷ 2 ∷ 3 ∷ 4 ∷ 5 ∷ 6 ∷ []) fresh).status ≡ true
failures_end_example =
    failures_end "c" "" (1 ∷ 2 ∷ 3 ∷ 4 ∷ 5 ∷ 6 ∷ []) fresh (omega arith) (omega arith)

record_only-Ends : Ends record_only
unfolding is_ignored
record_only-Ends e status reason h = elim (Bool-cases (str_eq e.event_type "message")) [
  | inl hit ↦
      let h' : ◌≡◌ {A = Option (Status × String)} (some (processed, "")) (some (status, reason)) =
        rw hit at h in
      ends_as h'
  | inr miss ↦
      let h' : ◌≡◌ {A = Option (Status × String)}
          (some (ignored, "No Phase 0 handler for this event type")) (some (status, reason)) =
        rw miss at h in
      skips h'
]
  where
    ends_as :
        ◌≡◌ {A = Option (Status × String)} (some (processed, "")) (some (status, reason))
        → is_processing status ≡ false
    ends_as h =
        ap (λ (o : Option (Status × String)). elim o [ none ↦ false | some x ↦ is_processing x.0 ])
          (sym h)

    skips :
        ◌≡◌ {A = Option (Status × String)}
          (some (ignored, "No Phase 0 handler for this event type"))
          (some (status, reason))
        → is_processing status ≡ false
    skips h =
        ap (λ (o : Option (Status × String)). elim o [ none ↦ false | some x ↦ is_processing x.0 ])
          (sym h)

unfoldable passed : List Event
unfolding run_once claim selected run_events complete completed_row is_eligible update_where
    select_where order_by insert_by is_ignored
passed = run_once unlocked record_only 20 rows

passes : map (λ (e : Event). e.status) passed ≡ processed ∷ processed ∷ []
unfolding passed
passes = refl

claims_fresh : In (leased (20 + minute) fresh) (claim unlocked 25 minute 20 rows).1
unfolding claim selected is_eligible select_where order_by insert_by
claims_fresh = inl refl

run_once_settles_example : is_processing processed ≡ false
unfolding run_once claim selected run_events complete completed_row is_eligible update_where
    select_where order_by insert_by is_ignored
run_once_settles_example =
    run_once_settles record_only record_only-Ends 20 unlocked rows (leased (20 + minute) fresh)
      (completed_row processed "" 20 (leased (20 + minute) fresh)) claims_fresh (inl refl) refl

rows-UniqueEvents : UniqueEvents rows
rows-UniqueEvents a b (inl e) (inl f) same = e ∙ sym f
rows-UniqueEvents a b (inl e) (inr (inl f)) same =
    let p : 1 ≡ 2 = sym (ap (λ (y : Event). y.id) e) ∙ same ∙ ap (λ (y : Event). y.id) f in
    absurd (omega (arith, p))
rows-UniqueEvents a b (inr (inl e)) (inl f) same =
    let p : 2 ≡ 1 = sym (ap (λ (y : Event). y.id) e) ∙ same ∙ ap (λ (y : Event). y.id) f in
    absurd (omega (arith, p))
rows-UniqueEvents a b (inr (inl e)) (inr (inl f)) same = e ∙ sym f
rows-UniqueEvents a b (inl e) (inr (inr j)) same = absurd j
rows-UniqueEvents a b (inr (inl e)) (inr (inr j)) same = absurd j
rows-UniqueEvents a b (inr (inr i)) j same = absurd i

run_once_keeps_ended_example : In finished (run_once unlocked record_only 20 rows)
run_once_keeps_ended_example =
    run_once_keeps_ended record_only 20 unlocked rows finished rows-UniqueEvents (inr (inl refl))
      refl
