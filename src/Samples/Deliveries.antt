-- ===== src/Samples/Deliveries.antt =====
-- Two deliveries (api/internal/worker/work.go).
use plaiflowapp.Base.{
  true, false, ◌≡◌, refl, List, [], ◌∷◌, none, str_eq, In, All, is_some, ◌⊎◌, inl, inr,
}
use plaiflowapp.Deliveries.{Delivery, processing, sent, transient}
use plaiflowapp.Deliveries.Passes.{Sending, pass, IsApart, Settled, pass_settles}

abbrev first : Delivery
first = record {
  id = "a";
  status = processing;
  attempt_count = 0;
  available_at = 1;
  lease_expires_at = none;
  delivered_at = none;
  failure_code = "";
}

abbrev second : Delivery
second = record first { id = "b" }

abbrev third : Delivery
third = record first { id = "c" }

abbrev calls : List Sending
calls =
    record { delivery = second; outcome = transient; now = 5; clock = 7 }
    ∷ record { delivery = first; outcome = sent; now = 5; clock = 6 }
    ∷ []

abbrev table : List Delivery
table = first ∷ second ∷ third ∷ []

calls-IsApart : IsApart calls
calls-IsApart = ((refl, tt), (tt, tt))

pass_settles_example :
    ((k : Sending) × In k calls
      × (str_eq "b" k.delivery.id ≡ true)
      × ((u : Delivery) × In u (pass calls table)
          × (u.id ≡ "b")
          × (is_some u.lease_expires_at ≡ false)
          × Settled k.delivery k.outcome k.now k.clock second u))
    ⊎ (All (λ (k : Sending). str_eq "b" k.delivery.id ≡ false) calls × In second (pass calls table))
pass_settles_example = pass_settles calls table calls-IsApart second (inr (inl refl))
