-- ===== src/Tenant/Owners.antt =====
-- The owners of an organization across the mutations of memberships
-- (api/internal/postgres/tenant.go).
use plaiflowapp.Base.{
  ℕ, ◌≤◌, Bool, true, false, ◌&&◌, ◌||◌, ◌≡◌, refl, ap, subst, ◌∙◌, List, some, String, ◌==◌, arith,
  Bool-cases, inl, inr,
}
use plaiflowapp.Sql.{
  commit, guard_passed, commit_injective, update_where, delete_where, rows_affected, query_row,
}
use plaiflowapp.Tenant.{
  permits, manage_roles, forbidden, not_found, Role, Membership, Store, is_owner, is_admin,
  is_member, membership_of, current_role, changeable, is_owner_of, change_role, audited,
}
use plaiflowapp.Sql.Counting.{
  rows_affected-update_where_same, query_row_unique, rows_affected-update_where,
  rows_affected-delete_where, rows_affected_none,
}

-- The key of the table of memberships.
abbrev pub UniqueMembers : List Membership → Type 0
UniqueMembers rows = (o u : String) → rows_affected (membership_of o u) rows ≤ 1

abbrev pub owners : String → Store → ℕ
owners o s = rows_affected (is_owner_of o) s.memberships

-- An update that keeps the keys keeps them unique.
pub UniqueMembers-update_where :
    (p : Membership → Bool) (f : Membership → Membership) (rows : List Membership)
    → ((o u : String) (m : Membership) → membership_of o u (f m) ≡ membership_of o u m)
    → UniqueMembers rows
    → UniqueMembers (update_where p f rows)
UniqueMembers-update_where p f rows same h o u =
    let e = rows_affected-update_where_same p (membership_of o u) f rows (same o u) in
    omega (arith, e, h o u)

pub UniqueMembers-delete_where :
    (p : Membership → Bool) (rows : List Membership)
    → UniqueMembers rows
    → UniqueMembers (delete_where p rows)
UniqueMembers-delete_where p rows h o u =
    omega (arith, rows_affected-delete_where p (membership_of o u) rows, h o u)

-- `change_role` neither makes nor touches an owner.
pub change_role-owners :
    (x actor target : String) (new : Role) (now : ℕ) (s s' : Store) (o : String)
    → change_role x actor target new now s ≡ commit s'
    → UniqueMembers s.memberships
    → UniqueMembers s'.memberships × (owners o s' ≡ owners o s)
unfolding change_role
change_role-owners x actor target new now s s' o h u =
    let (fits, h₁) = guard_passed _ _ _ h in
    let (may, h₂) = guard_passed (permits (current_role actor x s) manage_roles) forbidden _ h₁ in
    let (one, h₃) =
      guard_passed (rows_affected (changeable x target actor) s.memberships == 1) not_found _ h₂ in
    let p = changeable x target actor in
    let f = λ (m : Membership). record m { role = new; updated_at = now } in
    let e : audited x actor "membership.role_change" target now
          (record s { memberships = update_where p f s.memberships })
        ≡ s' =
      commit_injective h₃ in
    let kept = UniqueMembers-update_where p f s.memberships (λ o u m. refl) u in
    let plain = new_not_owner new fits in
    let counted = rows_affected-update_where p (is_owner_of o) f s.memberships in
    let none₁ =
      rows_affected_none (λ m. p m && is_owner_of o m) s.memberships
        (λ m i. changeable_not_owner x target actor o m) in
    let none₂ =
      rows_affected_none (λ m. p m && is_owner_of o (f m)) s.memberships
        (λ m i. rw plain (ground arith)) in
    subst (λ (y : Store). UniqueMembers y.memberships × (owners o y ≡ owners o s)) e
      (kept, omega (arith, counted, none₁, none₂))
  where
    new_not_owner : (r : Role) → (is_admin r || is_member r) ≡ true → is_owner r ≡ false
    new_not_owner r h = ground arith

    changeable_not_owner :
        (x target actor o : String) (m : Membership)
        → (changeable x target actor m && is_owner_of o m) ≡ false
    changeable_not_owner x target actor o m = ground arith

-- A deletion of a row that is no owner.
pub delete_owners :
    (x target o : String) (rows : List Membership) {r : Membership}
    → UniqueMembers rows
    → query_row (membership_of x target) rows ≡ some r
    → is_owner r.role ≡ false
    → rows_affected (is_owner_of o) (delete_where (membership_of x target) rows)
      ≡ rows_affected (is_owner_of o) rows
delete_owners x target o rows {r} u q plain =
    let p = membership_of x target in
    let counted = rows_affected-delete_where p (is_owner_of o) rows in
    let nothing =
      rows_affected_none (λ m. p m && is_owner_of o m) rows
        λ m i. elim (Bool-cases (p m)) [
          | inr miss ↦ rw miss refl
          | inl hit ↦
              let same : m ≡ r = query_row_unique p rows (u x target) q i hit in
              let plain' : is_owner m.role ≡ false =
                ap (λ (y : Membership). is_owner y.role) same ∙ plain in
              rw (hit, plain') (ground arith)
        ] in
    omega (arith, counted, nothing)
