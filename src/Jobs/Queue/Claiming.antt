-- ===== src/Jobs/Queue/Claiming.antt =====
-- What a claim does to the jobs.
use plaiflowapp.Base.{
  ℕ, ◌+◌, ◌<◌, Bool, true, false, ◌≡◌, refl, subst, ◌⊎◌, inl, inr, List, [], ◌∷◌, some, arith,
  String, str_eq, eq_iff, In, All, length, map, ap,
}
use plaiflowapp.Sql.{guard_passed, bind_passed, commit_injective, commit, update_where}
use plaiflowapp.Sql.Rows.{All-In, All-update_where}
use plaiflowapp.Jobs.{Job, is_queued, is_running, Store, holds_lease}
use plaiflowapp.Jobs.Rows.{IsConsistent, IsCoherent, UniqueIds, UniqueIds-update_where}
use plaiflowapp.Jobs.Changes.{Changes, update_at-Changes}
use plaiflowapp.Jobs.Queue.Selection.{differ}
use plaiflowapp.Jobs.Queue.{
  ClaimCommand, Claimed, is_exhausted, exhaust, sweep, lease_row, the_row, claim_loop,
}

exhaust-IsConsistent :
    (now : ℕ) (r : Job) → is_exhausted now r ≡ true → IsConsistent r → IsConsistent (exhaust now r)
unfolding is_exhausted exhaust
exhaust-IsConsistent now r x h = ground arith

lease_row-IsConsistent :
    (command : ClaimCommand) (now : ℕ) (attempt hash : String) (stale : Bool) (r : Job)
    → (is_queued r.status ≡ true) ⊎ (is_running r.status ≡ true)
    → r.attempt_count < r.max_attempts
    → IsConsistent r
    → IsConsistent (lease_row command now attempt hash stale r)
unfolding lease_row
lease_row-IsConsistent command now attempt hash stale r live left h = ground arith

-- The sweep keeps the table.
pub sweep-IsCoherent : (now : ℕ) (s : Store) → IsCoherent s.jobs → IsCoherent (sweep now s).jobs
unfolding sweep exhaust
sweep-IsCoherent now s h = record {
  valid =
      All-update_where (is_exhausted now) (exhaust now) s.jobs
        (λ r i x v. exhaust-IsConsistent now r x v) h.valid;
  unique = UniqueIds-update_where (is_exhausted now) (exhaust now) s.jobs (λ r. refl) h.unique;
}

-- The row is waiting, or its worker may be gone, and an attempt is left.
abbrev pub Claimable : Job → Type 0
Claimable r =
    ((is_queued r.status ≡ true) ⊎ (is_running r.status ≡ true))
    × (r.attempt_count < r.max_attempts)

-- The table holds the claimed job under the token that the worker was given.
abbrev pub HeldIn : (String → String) → ℕ → List Job → Claimed → Type 0
HeldIn lease_hash now rows x =
    (r : Job) × In r rows
    × (holds_lease lease_hash
          (record {
            job_id = x.job.id;
            attempt_id = x.attempt_id;
            lease_token = x.lease_token;
            now = now;
          })
          r
        ≡ true)
    × (r.lease_expires_at ≡ some x.lease_expires_at)
    × (r.attempt_count ≡ x.job.attempt_count)

-- What the loop over the candidates `cs` has done to `rows`.
pub record Looped (lease_hash : String → String) (now : ℕ) (cs : List Job) (rows rows' : List Job)
    (claimed : List Claimed) : Type 0 where
  pub table : IsCoherent rows'
  pub kept : (q : Job) → In q rows → All (λ (c : Job). str_eq q.id c.id ≡ false) cs → In q rows'
  pub held : All (HeldIn lease_hash now rows') claimed
  pub count : length claimed ≡ length cs
  pub ids : map (λ (x : Claimed). x.job.id) claimed ≡ map (λ (c : Job). c.id) cs

module _ (lease_hash : String → String) (command : ClaimCommand) (now : ℕ)
    (positive : 0 < command.lease) where
  -- The row of one candidate after its UPDATE.
  pub leased : Job → String → String → Job
  leased c attempt token = lease_row command now attempt (lease_hash token) (is_running c.status) c

  leased-holds :
      (c : Job) (attempt token : String)
      → holds_lease lease_hash
          (record { job_id = c.id; attempt_id = attempt; lease_token = token; now = now })
          (leased c attempt token)
        ≡ true
  unfolding leased lease_row
  leased-holds c attempt token = ground (
    arith,
    (eq_iff c.id c.id).1 refl,
    (eq_iff attempt attempt).1 refl,
    (eq_iff (lease_hash token) (lease_hash token)).1 refl,
  )

  pub round-Changes :
      (c : Job) (attempt token : String) (rows : List Job)
      → IsCoherent rows
      → In c rows
      → Claimable c
      → Changes rows c (leased c attempt token) (
          update_where
            (the_row c)
            (lease_row command now attempt (lease_hash token) (is_running c.status))
            rows)
  unfolding leased
  round-Changes c attempt token rows t i (live, left) =
      update_at-Changes t i (the_row c)
        (lease_row command now attempt (lease_hash token) (is_running c.status))
        (λ x h. ground arith)
        (ground
          (arith, (eq_iff c.id c.id).1 refl, (eq_iff c.organization_id c.organization_id).1 refl))
        (λ x. unfold lease_row in refl)
        (lease_row-IsConsistent command now attempt (lease_hash token) (is_running c.status) c live
          left (All-In IsConsistent rows t.valid i))

  -- Every row of the rest is another row than `c`.
  pub rest_In :
      (c : Job) (cs rows rows' : List Job) (r' : Job)
      → Changes rows c r' rows'
      → All (λ (x : Job). str_eq x.id c.id ≡ false) cs
      → ((x : Job) → In x cs → In x rows)
      → (x : Job) → In x cs
      → In x rows'
  rest_In c cs rows rows' r' ch fresh inside x j =
      ch.others x (inside x j) (All-In (λ (y : Job). str_eq y.id c.id ≡ false) cs fresh j)

  round-Looped :
      (c : Job) (cs : List Job) (attempt token : String) (rows rows₁ rows' : List Job) (x : Claimed)
      (claimed : List Claimed)
      → Changes rows c (leased c attempt token) rows₁
      → All (λ (y : Job). str_eq y.id c.id ≡ false) cs
      → x.job.id ≡ c.id
      → x.job.attempt_count ≡ c.attempt_count + 1
      → x.attempt_id ≡ attempt
      → x.lease_token ≡ token
      → x.lease_expires_at ≡ now + command.lease
      → Looped lease_hash now cs rows₁ rows' claimed
      → Looped lease_hash now (c ∷ cs) rows rows' (x ∷ claimed)
  round-Looped c cs attempt token rows rows₁ rows' x claimed ch fresh ei ea et ek ee l = record {
    table = l.table;
    kept = λ q i (n, ns). l.kept q (ch.others q i n) ns;
    held = (
      (
        leased c attempt token,
        l.kept (leased c attempt token) ch.changed (away cs fresh),
        rw (ei, et, ek) (leased-holds c attempt token),
        rw ee (unfold leased lease_row in refl),
        rw ea (unfold leased lease_row in refl),
      ),
      l.held,
    );
    count = omega (arith, l.count);
    ids = rw ei (ap (λ rest. c.id ∷ rest) l.ids);
  }
    where
      away :
          (ys : List Job)
          → All (λ (y : Job). str_eq y.id c.id ≡ false) ys
          → All (λ (y : Job). str_eq (leased c attempt token).id y.id ≡ false) ys
      away [] f = tt
      away (y ∷ ys) (n, f) = (rw ch.same_id (differ y.id c.id n), away ys f)

  pub claim_loop-Looped :
      (cs : List Job) (tokens : List (String × String)) (s s' : Store) (claimed : List Claimed)
      → IsCoherent s.jobs
      → UniqueIds cs
      → ((c : Job) → In c cs → In c s.jobs)
      → All Claimable cs
      → claim_loop lease_hash command now cs tokens s ≡ commit (s', claimed)
      → Looped lease_hash now cs s.jobs s'.jobs claimed
  unfolding claim_loop
  claim_loop-Looped [] tokens s s' claimed t u inside able h =
      subst (λ (y : Store × List Claimed). Looped lease_hash now [] s.jobs y.0.jobs y.1)
        (commit_injective h)
        (record { table = t; kept = λ q i _. i; held = tt; count = refl; ids = refl })
  claim_loop-Looped (c ∷ cs) [] s s' claimed t u inside able h = cc
  claim_loop-Looped (c ∷ cs) ((attempt, token) ∷ tokens) s s' claimed t (fresh, u) inside (a, able)
        h =
      let (one, h₁) = guard_passed _ _ _ h in
      let ((s₁, claimed₁), ran, out) = bind_passed _ _ h₁ in
      let ch = round-Changes c attempt token s.jobs t (inside c (inl refl)) a in
      let rest =
        rest_In c cs s.jobs _ (leased c attempt token) ch fresh (λ x j. inside x (inr j)) in
      let l = claim_loop-Looped cs tokens _ s₁ claimed₁ ch.still u rest able ran in
      subst (λ (y : Store × List Claimed). Looped lease_hash now (c ∷ cs) s.jobs y.0.jobs y.1)
        (commit_injective out)
        (round-Looped c cs attempt token s.jobs _ s₁.jobs _ claimed₁ ch fresh refl refl refl refl
          refl l)
