-- ===== src/Deliveries/Passes.antt =====
-- A pass over the deliveries that it has claimed (RunWorkOnce of api/internal/worker/work.go).
use plaiflowapp.Base.{
  ℕ, zero, suc, ◌+◌, ◌≤◌, true, false, ◌≡◌, refl, sym, ap, ◌∙◌, List, [], ◌∷◌, none, some, String,
  str_eq, eq_iff, arith, In, All, is_some, Bool-cases, subst, ◌⊎◌, inl, inr,
}
use plaiflowapp.Sql.Rows.{In-update_where_hit, In-update_where_miss, All-In}
use plaiflowapp.Inbound.Retries.{pauses}
use plaiflowapp.Deliveries.{
  Delivery, delivered, failed, retryable, Outcome, sent, permanent, transient, line_retry, deliver,
  complete_line_delivery, fail_line_delivery,
}

-- What one goroutine has: its delivery, the sender's answer, the time of the pass and the clock of
-- the database.
pub record Sending : Type 0 where
  pub delivery : Delivery
  pub outcome : Outcome
  pub now : ℕ
  pub clock : ℕ

-- The goroutines, in the order in which they reach the database.
unfoldable pub pass : List Sending → List Delivery → List Delivery
pass [] rows = rows
pass (k ∷ calls) rows = pass calls (deliver k.delivery k.outcome k.now k.clock rows)

-- What becomes of the row `d` when the sender gives the answer `o` for the delivery `x`.
pub data Settled (x : Delivery) (o : Outcome) (now clock : ℕ) (d u : Delivery) : Type 0 where
  accepted :
      o ≡ sent
      → u.status ≡ delivered
      → u.delivered_at ≡ some now
      → u.attempt_count ≡ d.attempt_count
      → Settled x o now clock d u
  refused :
      o ≡ permanent
      → u.status ≡ failed
      → u.attempt_count ≡ d.attempt_count + 1
      → Settled x o now clock d u
  postponed :
      (t : ℕ)
      → o ≡ transient
      → In (x.attempt_count, t) pauses
      → u.status ≡ retryable
      → u.available_at ≡ clock + t
      → u.attempt_count ≡ d.attempt_count + 1
      → Settled x o now clock d u
  given_up :
      o ≡ transient
      → 5 ≤ x.attempt_count
      → u.status ≡ failed
      → u.attempt_count ≡ d.attempt_count + 1
      → Settled x o now clock d u

-- No two calls are for one delivery.
abbrev pub IsApart : List Sending → Type 0
IsApart [] = Unit
IsApart (k ∷ calls) =
    All (λ (j : Sending). str_eq k.delivery.id j.delivery.id ≡ false) calls × IsApart calls

retry_cases :
    (a : ℕ)
    → ((5 ≤ a) × (line_retry (a + 1) ≡ none))
      ⊎ ((t : ℕ) × In (a, t) pauses × (line_retry (a + 1) ≡ some t))
unfolding line_retry
retry_cases zero = inr (_, inl refl, refl)
retry_cases (suc zero) = inr (_, inr (inl refl), refl)
retry_cases (suc (suc zero)) = inr (_, inr (inr (inl refl)), refl)
retry_cases (suc (suc (suc zero))) = inr (_, inr (inr (inr (inl refl))), refl)
retry_cases (suc (suc (suc (suc zero)))) = inr (_, inr (inr (inr (inr (inl refl)))), refl)
retry_cases (suc (suc (suc (suc (suc a))))) =
    let e : suc (suc (suc (suc (suc a)))) + 1 ≡ suc (suc (suc (suc (suc (suc a))))) = omega arith in
    inl (omega arith, ap line_retry e ∙ refl)

deliver_miss :
    (d : Delivery) (o : Outcome) (now clock : ℕ) (x : Delivery) (rows : List Delivery)
    → str_eq x.id d.id ≡ false
    → In x rows
    → In x (deliver d o now clock rows)
unfolding deliver complete_line_delivery fail_line_delivery
deliver_miss d sent now clock x rows m i = In-update_where_miss _ _ rows m i
deliver_miss d permanent now clock x rows m i = In-update_where_miss _ _ rows m i
deliver_miss d transient now clock x rows m i = In-update_where_miss _ _ rows m i

deliver_hit :
    (x : Delivery) (o : Outcome) (now clock : ℕ) (d : Delivery) (rows : List Delivery)
    → str_eq d.id x.id ≡ true
    → In d rows
    → (u : Delivery) × In u (deliver x o now clock rows)
      × (u.id ≡ d.id)
      × (is_some u.lease_expires_at ≡ false)
      × Settled x o now clock d u
unfolding deliver complete_line_delivery fail_line_delivery
deliver_hit x sent now clock d rows at i =
    (_, In-update_where_hit _ _ rows at i, refl, refl, accepted refl refl refl refl)
deliver_hit x permanent now clock d rows at i =
    (_, In-update_where_hit _ _ rows at i, refl, refl, refused refl refl refl)
deliver_hit x transient now clock d rows at i = elim (retry_cases x.attempt_count) [
  | inl (many, e) ↦
      rw e (_, In-update_where_hit _ _ rows at i, refl, refl, given_up refl many refl refl)
  | inr (t, j, e) ↦
      rw e (_, In-update_where_hit _ _ rows at i, refl, refl, postponed t refl j refl refl refl)
]

pass_miss :
    (calls : List Sending) (d : Delivery) (rows : List Delivery)
    → All (λ (k : Sending). str_eq d.id k.delivery.id ≡ false) calls
    → In d rows
    → In d (pass calls rows)
unfolding pass
pass_miss [] d rows m i = i
pass_miss (k ∷ calls) d rows (m, ms) i =
    pass_miss calls d (deliver k.delivery k.outcome k.now k.clock rows) ms
      (deliver_miss k.delivery k.outcome k.now k.clock d rows m i)

pass_hit :
    (calls : List Sending) (k : Sending) (d : Delivery) (rows : List Delivery)
    → IsApart calls
    → In k calls
    → In d rows
    → str_eq d.id k.delivery.id ≡ true
    → (u : Delivery) × In u (pass calls rows)
      × (u.id ≡ d.id)
      × (is_some u.lease_expires_at ≡ false)
      × Settled k.delivery k.outcome k.now k.clock d u
unfolding pass
pass_hit [] k d rows apart i j same = absurd i
pass_hit (j ∷ calls) k d rows (fresh, apart) (inl e) i same =
    let after = λ (c : Sending). deliver c.delivery c.outcome c.now c.clock rows in
    let (u, h, id, free, settled) = deliver_hit k.delivery k.outcome k.now k.clock d rows same i in
    let here : u.id ≡ j.delivery.id =
      id ∙ (eq_iff d.id k.delivery.id).0 same ∙ ap (λ (c : Sending). c.delivery.id) e in
    let far =
      subst (λ id. All (λ (c : Sending). str_eq id c.delivery.id ≡ false) calls) (sym here) fresh in
    (u, pass_miss calls u (after j) far (subst (λ c. In u (after c)) e h), id, free, settled)
pass_hit (j ∷ calls) k d rows (fresh, apart) (inr there) i same =
    let apart_from : str_eq j.delivery.id k.delivery.id ≡ false =
      All-In (λ (c : Sending). str_eq j.delivery.id c.delivery.id ≡ false) calls fresh there in
    let miss = turned d.id j.delivery.id k.delivery.id same apart_from in
    pass_hit calls k d (deliver j.delivery j.outcome j.now j.clock rows) apart there
      (deliver_miss j.delivery j.outcome j.now j.clock d rows miss i) same
  where
    turned : (a b c : String) → str_eq a c ≡ true → str_eq b c ≡ false → str_eq a b ≡ false
    turned a b c h n = ground (arith, eq_iff a c, eq_iff b c, eq_iff a b)

-- In whatever order the goroutines of a pass, no two of them for one delivery, reach the database,
-- each row ends as the sender's answer for its delivery says, its lease given back: delivered when
-- the message was sent; failed after a permanent error; after any other error open again, one
-- minute, five, thirty, two hours or twelve hours later for a delivery tried 0, 1, 2, 3 or 4 times
-- before, and failed if it was tried five times or more. A row of no goroutine stays as it is.
pub pass_settles :
    (calls : List Sending) (rows : List Delivery)
    → IsApart calls
    → (d : Delivery) → In d rows
    → ((k : Sending) × In k calls
        × (str_eq d.id k.delivery.id ≡ true)
        × ((u : Delivery) × In u (pass calls rows)
            × (u.id ≡ d.id)
            × (is_some u.lease_expires_at ≡ false)
            × Settled k.delivery k.outcome k.now k.clock d u))
      ⊎ (All (λ (k : Sending). str_eq d.id k.delivery.id ≡ false) calls × In d (pass calls rows))
pass_settles calls rows apart d i = elim (call_of d.id calls) [
  | inl (k, there, same) ↦ inl (k, there, same, pass_hit calls k d rows apart there i same)
  | inr none_of ↦ inr (none_of, pass_miss calls d rows none_of i)
]
  where
    call_of :
        (id : String) (calls : List Sending)
        → ((k : Sending) × In k calls × (str_eq id k.delivery.id ≡ true))
          ⊎ All (λ (k : Sending). str_eq id k.delivery.id ≡ false) calls
    call_of id [] = inr tt
    call_of id (k ∷ more) = elim (Bool-cases (str_eq id k.delivery.id)) [
      | inl hit ↦ inl (k, inl refl, hit)
      | inr miss ↦ elim (call_of id more) [
        | inl (j, there, same) ↦ inl (j, inr there, same)
        | inr all_miss ↦ inr (miss, all_miss)
      ]
    ]
