-- ===== src/Inbound/Ended.antt =====
-- What a pass and the cleanup leave alone: RunOnce of api/internal/worker/worker.go, and Cleanup of
-- api/internal/postgres/store.go.
use plaiflowapp.Base.{
  ℕ, ◌+◌, ◌*◌, ◌≤◌, Bool, true, false, not, ◌&&◌, ◌≡◌, refl, sym, ap, ◌∙◌, List, [], ◌∷◌, none,
  arith, ◌==◌, ==_iff, any, map, inl, inr, ◌⊎◌, Bool-cases, Option-cases, In, false≢true, is_some,
}
use plaiflowapp.Sql.{delete_where, select_where}
use plaiflowapp.Sql.Rows.{In-update_where_miss, In-select_where}
use plaiflowapp.Sql.Order.{In-order_by, In-take}
use plaiflowapp.Inbound.{
  Event, is_terminal, failed_row, minute, is_eligible, before, leased, selected, claim, complete,
  completed_row, fail, terminal_before, cleanup, day, ProcessFunc, run_events, run_once,
}

-- Ids are a key of the table.
abbrev pub UniqueEvents : List Event → Type 0
UniqueEvents rows = (a b : Event) → In a rows → In b rows → a.id ≡ b.id → a ≡ b

any-In :
    {A : Type 0} (p : A → Bool) (rows : List A)
    → any p rows ≡ true
    → (x : A) × In x rows × (p x ≡ true)
any-In p [] h = absurd (false≢true h)
any-In p (x ∷ rows) h = elim (Bool-cases (p x)) [
  | inl hit ↦ (x, inl refl, hit)
  | inr miss ↦ let (y, i, k) = any-In p rows (rw miss at h) in (y, inr i, k)
]

In-map :
    {A B : Type 0} (f : A → B) (rows : List A) (y : B)
    → In y (map f rows)
    → (x : A) × In x rows × (y ≡ f x)
In-map f [] y i = absurd i
In-map f (x ∷ rows) y (inl e) = (x, inl refl, e)
In-map f (x ∷ rows) y (inr i) = let (z, j, e) = In-map f rows y i in (z, inr j, e)

In-selected :
    (locked : ℕ → Bool) (limit now : ℕ) (rows : List Event) (x : Event)
    → In x (selected locked limit now rows)
    → In x rows × (is_eligible now x ≡ true)
unfolding selected
In-selected locked limit now rows x i =
    let test = λ (e : Event). is_eligible now e && not (locked e.id) in
    let (j, h) =
      In-select_where test rows
        (In-order_by before (select_where test rows) x (In-take limit _ x i)) in
    (j, ground arith)

terminal_not_eligible :
    (now : ℕ) (e : Event) → is_terminal e.status ≡ true → is_eligible now e ≡ false
unfolding is_eligible
terminal_not_eligible now e h = ground arith

module _ (process : ProcessFunc) (now : ℕ) where
  run_events-keeps :
      (events rows : List Event) (x : Event)
      → ((e : Event) → In e events → (x.id == e.id) ≡ false)
      → In x rows
      → In x (run_events process now events rows)
  unfolding run_events fail complete
  run_events-keeps [] rows x out i = i
  run_events-keeps (e ∷ events) rows x out i = elim (Option-cases (process e)) [
    | inl gone ↦ rw gone (
        run_events-keeps events _ x (λ y j. out y (inr j))
          (In-update_where_miss (λ (y : Event). y.id == e.id)
            (failed_row e.attempt_count "processing_failed" "Event processing failed" now) rows
            (out e (inl refl)) i))
    | inr ((status, reason), there) ↦ rw there (
        run_events-keeps events _ x (λ y j. out y (inr j))
          (In-update_where_miss (λ (y : Event). y.id == e.id) (completed_row status reason now) rows
            (out e (inl refl)) i))
  ]

  -- On rows whose ids are a key, a pass leaves an event that is processed, ignored or failed as it
  -- is, whatever the handler does.
  pub run_once_keeps_ended :
      (locked : ℕ → Bool) (rows : List Event) (x : Event)
      → UniqueEvents rows
      → In x rows
      → is_terminal x.status ≡ true
      → In x (run_once locked process now rows)
  unfolding run_once claim
  run_once_keeps_ended locked rows x unique i ended =
      let chosen = selected locked 25 now rows in
      let no = terminal_not_eligible now x ended in
      let apart : (y : Event) → In y chosen → (y.id == x.id) ≡ false = λ y j.
        elim (Bool-cases (y.id == x.id)) [
          | inr off ↦ off
          | inl hit ↦
              let (k, able) = In-selected locked 25 now rows y j in
              let same : y ≡ x = unique y x k i ((==_iff y.id x.id).0 hit) in
              absurd (false≢true (sym no ∙ ap (is_eligible now) (sym same) ∙ able))
        ] in
      let unchosen : any (λ (y : Event). y.id == x.id) chosen ≡ false =
        elim (Bool-cases (any (λ (y : Event). y.id == x.id) chosen)) [
          | inr off ↦ off
          | inl hit ↦
              let (y, j, k) = any-In (λ (y : Event). y.id == x.id) chosen hit in
              absurd (false≢true (sym (apart y j) ∙ k))
        ] in
      run_events-keeps (map (leased (now + minute)) chosen) _ x
        (λ e j.
          let (y, k, same) = In-map (leased (now + minute)) chosen e j in
          let e_id : e.id ≡ y.id = ap (λ (z : Event). z.id) same in
          let far : (y.id == x.id) ≡ false = apart y k in swap x.id y.id e.id e_id far)
        (In-update_where_miss (λ (e : Event). any (λ (y : Event). y.id == e.id) chosen)
          (leased (now + minute)) rows unchosen i)
    where
      swap : (a b c : ℕ) → c ≡ b → (b == a) ≡ false → (a == c) ≡ false
      swap a b c e h = ground (arith, e)

In-delete_where_miss :
    {A : Type 0} (p : A → Bool) (rows : List A) (x : A)
    → p x ≡ false
    → In x rows
    → In x (delete_where p rows)
unfolding delete_where
In-delete_where_miss p [] x miss i = i
In-delete_where_miss p (y ∷ rows) x miss (inl e) = rw (ap p (sym e) ∙ miss) (inl e)
In-delete_where_miss p (y ∷ rows) x miss (inr i) = elim (Bool-cases (p y)) [
  | inl hit ↦ rw hit (In-delete_where_miss p rows x miss i)
  | inr out ↦ rw out (inr (In-delete_where_miss p rows x miss i))
]

-- The cleanup keeps an event whole that has not ended, or was received in the last 30 days.
pub cleanup_keeps :
    (now : ℕ) (rows : List Event) (x : Event)
    → In x rows
    → (is_terminal x.status ≡ false) ⊎ (now ≤ x.received_at + 30 * day)
    → In x (cleanup now rows)
unfolding cleanup
cleanup_keeps now rows x i young =
    let late : terminal_before (90 * day) now x ≡ false = kept_age x 90 young (omega arith) in
    let soon : terminal_before (30 * day) now x ≡ false = kept_age x 30 young (omega arith) in
    In-delete_where_miss (terminal_before (90 * day) now) _ x late (
      In-update_where_miss (λ (e : Event). is_some e.payload && terminal_before (30 * day) now e)
        (λ e. record e { payload = none }) rows (rw soon (ground arith)) i)
  where
    kept_age :
        (x : Event) (days : ℕ)
        → (is_terminal x.status ≡ false) ⊎ (now ≤ x.received_at + 30 * day)
        → 30 ≤ days
        → terminal_before (days * day) now x ≡ false
    kept_age x days (inl open_still) le = rw open_still (ground arith)
    kept_age x days (inr fresh) le = ground arith
