-- ===== src/Tenant/Transfer.antt =====
-- Who owns an organization after a transfer (`TransferOwnership` of
-- api/internal/postgres/tenant.go, and the SQL function that it calls).
use plaiflowapp.Base.{
  ℕ, ◌≤◌, ◌<◌, Bool, true, false, not, ◌&&◌, ◌≡◌, refl, ap, subst, ◌∙◌, List, [], ◌∷◌, Option, none,
  some, String, str_eq, leb, arith, Bool-cases, In, inl, inr, eq_iff, Option-cases, ◌⊎◌,
}
use plaiflowapp.Sql.{commit, guard_passed, commit_injective, update_where, rows_affected, query_row}
use plaiflowapp.Sql.Rows.{query_row-In, In-update_where_miss, In-update_where_hit}
use plaiflowapp.Tenant.{
  Role, owner, admin, Membership, Store, is_owner, membership_of, current_role, is_owner_of,
  demoted, promoted, transfer_ownership_of, transfer_raises, audited,
}
use plaiflowapp.Sql.Counting.{rows_affected-update_where, rows_affected_none, rows_affected_pos}
use plaiflowapp.Tenant.Owners.{UniqueMembers, UniqueMembers-update_where, owners}
use plaiflowapp.Sql.Counting.{query_row_unique}

pub current_role-row :
    (user x : String) (s : Store) {r : Role}
    → current_role user x s ≡ some r
    → (m : Membership) × (query_row (membership_of x user) s.memberships ≡ some m) × (m.role ≡ r)
unfolding current_role
current_role-row user x s {r} h =
    elim (Option-cases (query_row (membership_of x user) s.memberships)) [
      | inl e ↦ let h' : ◌≡◌ {A = Option Role} none (some r) = rw (current_role, e) at h in cc
      | inr (m, e) ↦ let h' : some m.role ≡ some r = rw (current_role, e) at h in (m, e, cc)
    ]

update_where-none :
    {A : Type 0} (p : A → Bool) (f : A → A) (rows : List A)
    → query_row p rows ≡ none
    → update_where p f rows ≡ rows
unfolding update_where query_row
update_where-none p f [] h = refl
update_where-none {A} p f (r ∷ rows) h = elim (Bool-cases (p r)) [
  | inl hit ↦ let h' : ◌≡◌ {A = Option A} (some r) none = rw hit at h in cc
  | inr miss ↦ rw miss (ap (λ rest. r ∷ rest) (update_where-none p f rows (rw miss at h)))
]

current_role-none :
    (user x : String) (s : Store)
    → current_role user x s ≡ none
    → query_row (membership_of x user) s.memberships ≡ none
unfolding current_role
current_role-none user x s h =
    elim (Option-cases (query_row (membership_of x user) s.memberships)) [
      | inl e ↦ e
      | inr (m, e) ↦ let h' : some m.role ≡ none = rw (current_role, e) at h in cc
    ]

module _ (x actor target : String) (now : ℕ) (rows : List Membership) where
  abbrev demote : Membership → Membership
  demote m = record m { role = admin; updated_at = now }

  abbrev promote : Membership → Membership
  promote m = record m { role = owner; updated_at = now }

  abbrev after : List Membership
  after = promoted x target now (demoted x actor now rows)

  after-UniqueMembers : UniqueMembers rows → UniqueMembers after
  unfolding promoted demoted
  after-UniqueMembers u =
      UniqueMembers-update_where (membership_of x target) promote _ (λ o v m. refl)
        (UniqueMembers-update_where (membership_of x actor) demote rows (λ o v m. refl) u)

  -- The memberships of the other organizations.
  after_elsewhere :
      (o : String)
      → str_eq x o ≡ false
      → rows_affected (is_owner_of o) after ≡ rows_affected (is_owner_of o) rows
  unfolding promoted demoted
  after_elsewhere o off =
      let apart = λ (u : String) (m : Membership). elsewhere u m o off in
      let d = rows_affected-update_where (membership_of x actor) (is_owner_of o) demote rows in
      let d₁ =
        rows_affected_none (λ m. membership_of x actor m && is_owner_of o m) rows
          (λ m i. elsewhere actor m o off m.role) in
      let d₂ =
        rows_affected_none (λ m. membership_of x actor m && is_owner_of o (demote m)) rows
          (λ m i. elsewhere actor m o off admin) in
      let mid = update_where (membership_of x actor) demote rows in
      let p = rows_affected-update_where (membership_of x target) (is_owner_of o) promote mid in
      let p₁ =
        rows_affected_none (λ m. membership_of x target m && is_owner_of o m) mid
          (λ m i. elsewhere target m o off m.role) in
      let p₂ =
        rows_affected_none (λ m. membership_of x target m && is_owner_of o (promote m)) mid
          (λ m i. elsewhere target m o off owner) in
      omega (arith, d, d₁, d₂, p, p₁, p₂)
    where
      elsewhere :
          (u : String) (m : Membership) (o : String)
          → str_eq x o ≡ false
          → (r : Role) → (membership_of x u m && (str_eq m.organization_id o && is_owner r)) ≡ false
      elsewhere u m o off r = elim (Bool-cases (str_eq m.organization_id x)) [
        | inr miss ↦ rw miss refl
        | inl hit ↦
            let e : m.organization_id ≡ x = (eq_iff m.organization_id x).0 hit in
            rw (e, off) (ground arith)
      ]

  -- The target is an owner afterwards, if it is a member.
  after_target :
      (m : Membership)
      → In m rows
      → membership_of x target m ≡ true
      → 0 < rows_affected (is_owner_of x) after
  unfolding promoted demoted
  after_target m i hit =
      let here : str_eq m.organization_id x ≡ true = ground arith in
      let mid = update_where (membership_of x actor) demote rows in
      elim (Bool-cases (membership_of x actor m)) [
        | inl both ↦
            rows_affected_pos (is_owner_of x) _
              (In-update_where_hit (membership_of x target) promote mid {r = demote m} hit
                (In-update_where_hit (membership_of x actor) demote rows both i))
              (rw here refl)
        | inr miss ↦
            rows_affected_pos (is_owner_of x) _
              (In-update_where_hit (membership_of x target) promote mid {r = m} hit
                (In-update_where_miss (membership_of x actor) demote rows miss i))
              (rw here refl)
      ]

module _ (x actor target : String) (now : ℕ) (s s' : Store) where
  -- What a transfer that succeeds has checked and done.
  transfer_done :
      transfer_ownership_of x actor target now s ≡ commit s'
      → (transfer_raises (current_role actor x s) (current_role target x s) (str_eq actor target)
          ≡ false)
        × (rows_affected (is_owner_of x) (after x actor target now s.memberships) ≤ 1)
        × (after x actor target now s.memberships ≡ s'.memberships)
  unfolding transfer_ownership_of
  transfer_done h =
      let raises =
        transfer_raises (current_role actor x s) (current_role target x s) (str_eq actor target) in
      let (calm, h₁) = guard_passed (not raises) _ _ h in
      let (few, h₂) =
        guard_passed
          (leb (rows_affected (is_owner_of x) (after x actor target now s.memberships)) 1) _ _ h₁ in
      let e : audited x actor "organization.ownership_transfer" target now
            (record s { memberships = after x actor target now s.memberships })
          ≡ s' =
        commit_injective h₂ in
      (quiet raises calm, ground arith, ap (λ (y : Store). y.memberships) e)
    where
      quiet : (b : Bool) → not b ≡ true → b ≡ false
      quiet b h = ground arith

  target_role :
      transfer_raises (current_role actor x s) (current_role target x s) (str_eq actor target)
        ≡ false
      → (r : Role) × (current_role target x s ≡ some r)
  target_role calm = elim (Option-cases (current_role target x s)) [
    | inr (r, e) ↦ (r, e)
    | inl e ↦
        let calm' : transfer_raises (current_role actor x s) none (str_eq actor target) ≡ false =
          rw e at calm in
        ground arith
  ]

  pub transfer_owners :
      (o : String)
      → transfer_ownership_of x actor target now s ≡ commit s'
      → UniqueMembers s.memberships
      → owners o s ≡ 1
      → UniqueMembers s'.memberships × (owners o s' ≡ 1)
  transfer_owners o h u one =
      let (calm, few, e) = transfer_done h in
      let (r, is) = target_role calm in
      let (m, q, k) = current_role-row target x s is in
      let (i, hit) = query_row-In (membership_of x target) s.memberships q in
      let rows = after x actor target now s.memberships in
      let counted : rows_affected (is_owner_of o) rows ≡ 1 = elim (Bool-cases (str_eq x o)) [
        | inr off ↦ after_elsewhere x actor target now s.memberships o off ∙ one
        | inl same ↦
            let pos = after_target x actor target now s.memberships m i hit in
            subst (λ y. rows_affected (is_owner_of y) rows ≡ 1) ((eq_iff x o).0 same)
              (omega (arith, few, pos))
      ] in
      subst (λ y. UniqueMembers y × (rows_affected (is_owner_of o) y ≡ 1)) e
        (after-UniqueMembers x actor target now s.memberships u, counted)

  -- A transfer that succeeds, where the organization had one owner and each user at most one
  -- membership, was asked for by the owner; or by a user with no membership there, with the owner
  -- as the target.
  pub transfer_by_owner :
      transfer_ownership_of x actor target now s ≡ commit s'
      → UniqueMembers s.memberships
      → owners x s ≡ 1
      → (current_role actor x s ≡ some owner)
        ⊎ ((current_role actor x s ≡ none) × (current_role target x s ≡ some owner))
  unfolding promoted demoted
  transfer_by_owner h u one =
      let (calm, few, e) = transfer_done h in
      elim (Option-cases (current_role actor x s)) [
        | inr (r, is) ↦
            let calm' : transfer_raises (some r) (current_role target x s) (str_eq actor target)
                ≡ false =
              rw is at calm in
            inl (is ∙ ap some (owner_of r (ground arith)))
        | inl gone ↦
            let (r, is) = target_role calm in
            let (m, q, k) = current_role-row target x s is in
            let (i, hit) = query_row-In (membership_of x target) s.memberships q in
            let idle =
              update_where-none (membership_of x actor) (demote x actor target now s.memberships)
                s.memberships (current_role-none actor x s gone) in
            elim (Bool-cases (is_owner r)) [
              | inl own ↦ inr (gone, is ∙ ap some (owner_of r own))
              | inr other ↦
                  let p = membership_of x target in
                  let f = promote x actor target now s.memberships in
                  let counted = rows_affected-update_where p (is_owner_of x) f s.memberships in
                  let nothing =
                    rows_affected_none (λ y. p y && is_owner_of x y) s.memberships
                      λ y j. elim (Bool-cases (p y)) [
                        | inr miss ↦ rw miss refl
                        | inl here ↦
                            let same : y ≡ m =
                              query_row_unique p s.memberships (u x target) q j here in
                            let plain : is_owner y.role ≡ false =
                              ap (λ (z : Membership). is_owner z.role) same
                              ∙ ap is_owner k
                              ∙ other in
                            rw (here, plain) (ground arith)
                      ] in
                  let some_row =
                    rows_affected_pos (λ y. p y && is_owner_of x (f y)) s.memberships i
                      (ground arith) in
                  let few' : rows_affected (is_owner_of x) (update_where p f s.memberships) ≤ 1 =
                    subst (λ rows. rows_affected (is_owner_of x) (update_where p f rows) ≤ 1) idle
                      few in
                  absurd (omega (arith, counted, nothing, some_row, few', one))
            ]
      ]
    where
      owner_of : (r : Role) → is_owner r ≡ true → r ≡ owner
      owner_of r h = ground arith
