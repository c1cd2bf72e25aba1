-- ===== src/Inbound/Retries.antt =====
-- How often an event is tried (`RetryDelay` of api/internal/inbound/inbound.go, `Fail` of
-- api/internal/postgres/store.go).
use plaiflowapp.Base.{
  ℕ, zero, suc, ◌+◌, ◌≤◌, ◌<◌, true, false, ◌≡◌, refl, ◌∙◌, ap, List, [], ◌∷◌, Option, none, some,
  arith, length, In, ◌*◌, is_some, String, inl, inr, ◌⊎◌,
}
use plaiflowapp.Inbound.{Event, is_terminal, failed_row, retry_delay, minute}

-- Failures at the given times, each of the event as the one before left it.
unfoldable pub failures : String → String → List ℕ → Event → Event
unfolding failed_row
failures code message [] e = e
failures code message (now ∷ times) e =
    failures code message times (failed_row e.attempt_count code message now e)

-- The pause after so many earlier attempts.
abbrev pub pauses : List (ℕ × ℕ)
pauses =
    (0, minute) ∷ (1, 5 * minute) ∷ (2, 30 * minute) ∷ (3, 120 * minute) ∷ (4, 720 * minute) ∷ []

delay_cases :
    (a : ℕ)
    → ((4 < a) × (retry_delay (suc a) ≡ none))
      ⊎ ((d : ℕ) × (a ≤ 4) × (retry_delay (suc a) ≡ some d) × In (a, d) pauses)
unfolding retry_delay
delay_cases zero = inr (_, omega arith, refl, inl refl)
delay_cases (suc zero) = inr (_, omega arith, refl, inr (inl refl))
delay_cases (suc (suc zero)) = inr (_, omega arith, refl, inr (inr (inl refl)))
delay_cases (suc (suc (suc zero))) = inr (_, omega arith, refl, inr (inr (inr (inl refl))))
delay_cases (suc (suc (suc (suc zero)))) =
    inr (_, omega arith, refl, inr (inr (inr (inr (inl refl)))))
delay_cases (suc (suc (suc (suc (suc a))))) = inl (omega arith, refl)

next_delay : (a : ℕ) (o : Option ℕ) → retry_delay (suc a) ≡ o → retry_delay (a + 1) ≡ o
next_delay a o e = let same : a + 1 ≡ suc a = omega arith in ap retry_delay same ∙ e

-- A failure counts the attempt and gives the lease back. It ends the event if five or more attempts
-- were counted before, and else offers the event again one minute, five, thirty, two hours or twelve
-- hours later, after 0, 1, 2, 3 or 4 earlier attempts: so the fifth failure is still followed by
-- another attempt.
pub failed_row_lem :
    (e : Event) (code message : String) (now : ℕ)
    → let f = failed_row e.attempt_count code message now e in
      (f.attempt_count ≡ e.attempt_count + 1)
      × (is_some f.lease_expires_at ≡ false)
      × (((4 < e.attempt_count) × (is_terminal f.status ≡ true) × (is_some f.processed_at ≡ true))
          ⊎ ((e.attempt_count ≤ 4)
              × (is_terminal f.status ≡ false)
              × ((t : ℕ) × In (e.attempt_count, t) pauses × (f.available_at ≡ now + t))))
unfolding failed_row
failed_row_lem e code message now = elim (delay_cases e.attempt_count) [
  | inl (more, gone) ↦
      rw (failed_row, next_delay e.attempt_count none gone) (refl, refl, inl (more, refl, refl))
  | inr (d, few, there, long) ↦
      rw (failed_row, next_delay e.attempt_count (some d) there)
        (refl, refl, inr (few, refl, (d, long, refl)))
]

-- An event that fails, until at least six attempts are counted, has ended.
pub failures_end :
    (code message : String) (times : List ℕ) (e : Event)
    → 6 ≤ e.attempt_count + length times
    → 1 ≤ length times
    → is_terminal (failures code message times e).status ≡ true
unfolding failures
failures_end code message [] e all some_time = absurd (omega (arith, some_time))
failures_end code message (now ∷ []) e all some_time =
    let (n, l, cases) = failed_row_lem e code message now in
    elim cases [
      | inl (more, ended, at) ↦ ended
      | inr (few, open_still, later) ↦ absurd (omega (arith, few, all))
    ]
failures_end code message (now ∷ (next ∷ times)) e all some_time =
    let (n, l, cases) = failed_row_lem e code message now in
    failures_end code message (next ∷ times) (failed_row e.attempt_count code message now e)
      (omega (arith, n, all)) (omega arith)
