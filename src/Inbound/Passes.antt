-- ===== src/Inbound/Passes.antt =====
-- One pass of the worker (`RunOnce` of api/internal/worker/worker.go).
use plaiflowapp.Base.{
  ℕ, ◌+◌, Bool, true, false, ◌≡◌, refl, sym, ap, subst, ◌∙◌, List, [], ◌∷◌, none, some, String,
  ◌==◌, ==_iff, inl, inr, ◌⊎◌, Option-cases, In, false≢true,
}
use plaiflowapp.Sql.{update_where}
use plaiflowapp.Sql.Rows.{In-update_where_back}
use plaiflowapp.Inbound.{
  Event, Status, is_processing, failed_row, retry_delay, minute, before, claim, complete,
  completed_row, fail, ProcessFunc, run_events, run_once,
}

-- The handler of events ends them: it does not answer that they are still processed.
abbrev pub Ends : ProcessFunc → Type 0
Ends process =
    (e : Event) (status : Status) (reason : String)
    → process e ≡ some (status, reason)
    → is_processing status ≡ false

-- No row of this id is being processed.
Settled : ℕ → List Event → Type 0
Settled id rows = (x : Event) → In x rows → x.id ≡ id → is_processing x.status ≡ false

failed_not_processing :
    (a : ℕ) (code message : String) (now : ℕ) (e : Event)
    → (is_processing (failed_row a code message now e).status ≡ false)
      × ((failed_row a code message now e).id ≡ e.id)
unfolding failed_row
failed_not_processing a code message now e = elim (Option-cases (retry_delay (a + 1))) [
  | inl gone ↦ rw (failed_row, gone) (refl, refl)
  | inr (d, there) ↦ rw (failed_row, there) (refl, refl)
]

-- An update of the rows of one id, to rows that are not being processed.
Settled-update_where :
    (id other : ℕ) (f : Event → Event) (rows : List Event)
    → ((e : Event) → (is_processing (f e).status ≡ false) × ((f e).id ≡ e.id))
    → Settled other rows ⊎ (other ≡ id)
    → Settled other (update_where (λ (e : Event). e.id == id) f rows)
unfolding Settled
Settled-update_where id other f rows h before x i same =
    elim (In-update_where_back (λ (e : Event). e.id == id) f rows x i) [
      | inr (y, j, hit, e) ↦ subst (λ (z : Event). is_processing z.status ≡ false) (sym e) (h y).0
      | inl (j, miss) ↦ elim before [
        | inl settled ↦ settled x j same
        | inr here ↦
            let hit : (x.id == id) ≡ true = (==_iff x.id id).1 (same ∙ here) in
            absurd (false≢true (sym miss ∙ hit))
      ]
    ]

module _ (process : ProcessFunc) (ends : Ends process) (now : ℕ) where
  abbrev handled : Event → List Event → List Event
  handled e rows = elim (process e) [
    | none ↦ fail e "processing_failed" "Event processing failed" now rows
    | some (status, reason) ↦ complete e.id status reason now rows
  ]

  handled-Settled :
      (e : Event) (other : ℕ) (rows : List Event)
      → Settled other rows ⊎ (other ≡ e.id)
      → Settled other (handled e rows)
  unfolding fail complete completed_row
  handled-Settled e other rows h = elim (Option-cases (process e)) [
    | inl gone ↦
        rw (handled, gone)
          (Settled-update_where e.id other
            (failed_row e.attempt_count "processing_failed" "Event processing failed" now) rows
            (failed_not_processing e.attempt_count _ _ now) h)
    | inr ((status, reason), there) ↦
        rw (handled, there)
          (Settled-update_where e.id other (completed_row status reason now) rows
            (λ x. (ends e status reason there, refl)) h)
  ]

  run_events-Settled :
      (other : ℕ) (events rows : List Event)
      → Settled other rows ⊎ ((e : Event) × In e events × (other ≡ e.id))
      → Settled other (run_events process now events rows)
  unfolding run_events
  run_events-Settled other [] rows (inl h) = h
  run_events-Settled other [] rows (inr (e, i, s)) = absurd i
  run_events-Settled other (e ∷ events) rows (inl h) =
      run_events-Settled other events (handled e rows) (inl (handled-Settled e other rows (inl h)))
  run_events-Settled other (e ∷ events) rows (inr (x, inl here, s)) =
      run_events-Settled other events (handled e rows)
        (inl (handled-Settled e other rows (inr (s ∙ ap (λ (y : Event). y.id) here))))
  run_events-Settled other (e ∷ events) rows (inr (x, inr i, s)) =
      run_events-Settled other events (handled e rows) (inr (x, i, s))

  -- A pass over the queue, with a handler that answers no event with Processing, leaves none of
  -- the events that it claims in processing.
  pub run_once_settles :
      (locked : ℕ → Bool) (rows : List Event) (e x : Event)
      → In e (claim locked 25 minute now rows).1
      → In x (run_once locked process now rows)
      → x.id ≡ e.id
      → is_processing x.status ≡ false
  unfolding run_once Settled
  run_once_settles locked rows e x i j same =
      run_events-Settled e.id (claim locked 25 minute now rows).1
        (claim locked 25 minute now rows).0 (inr (e, i, refl)) x j same
