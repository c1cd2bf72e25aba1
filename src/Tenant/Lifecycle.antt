-- ===== src/Tenant/Lifecycle.antt =====
-- Any sequence of the mutations of api/internal/postgres/tenant.go that succeed.
use plaiflowapp.Base.{
  ℕ, not, ◌≡◌, refl, ap, subst, ◌∙◌, some, String, arith, Option-cases, ◌&&◌, ◌||◌, inl, inr, true,
  false, ◌==◌, ◌⊎◌, false≢true,
}
use plaiflowapp.Sql.{Tx, commit, rollback, guard_passed, delete_where, rows_affected}
use plaiflowapp.Tenant.{
  Role, owner, admin, member, other, allows, Error, Store, is_owner_of, is_owner, is_admin,
  is_member, membership_of, current_role, permits, remove_member, forbidden, conflict,
  invite_member, manage_group, change_role, transfer_ownership_of, remove_membership,
  leave_organization, not_found,
}
use plaiflowapp.Tenant.Inviting.{
  InviteCreate, create_invitation, revoke_invitation, disconnect_line_connection, revocable,
  invitation_insertable, is_live_connection,
}
use plaiflowapp.Tenant.Owners.{
  UniqueMembers, UniqueMembers-delete_where, owners, delete_owners, change_role-owners,
}
use plaiflowapp.Tenant.Transfer.{current_role-row, transfer_owners}

-- One mutation that succeeds.
pub data Step : Store → Store → Type 0 where
  changing :
      (x actor target : String) (new : Role) (now : ℕ) {s s' : Store}
      → change_role x actor target new now s ≡ commit s'
      → Step s s'
  transferring :
      (x actor target : String) (now : ℕ) {s s' : Store}
      → transfer_ownership_of x actor target now s ≡ commit s'
      → Step s s'
  removing :
      (x actor target : String) (now : ℕ) {s s' : Store}
      → remove_membership x actor target now s ≡ commit s'
      → Step s s'
  leaving :
      (x user : String) (now : ℕ) {s s' : Store}
      → leave_organization x user now s ≡ commit s'
      → Step s s'
  inviting : (i : InviteCreate) {s s' : Store} → create_invitation i s ≡ commit s' → Step s s'
  revoking :
      (x actor id : String) (now : ℕ) {s s' : Store}
      → revoke_invitation x actor id now s ≡ commit s'
      → Step s s'
  disconnecting :
      (x actor id : String) (now : ℕ) {s s' : Store}
      → disconnect_line_connection x actor id now s ≡ commit s'
      → Step s s'

pub data Run : Store → Store → Type 0 where
  still : {s : Store} → Run s s
  then_step : {s t u : Store} → Run s t → Step t u → Run s u

-- Each user has at most one membership of an organization, and `o` has one owner.
abbrev pub IsGoverned : String → Store → Type 0
IsGoverned o s = UniqueMembers s.memberships × (owners o s ≡ 1)

removed-IsGoverned :
    (o x target : String) (s s' : Store) {r : Role}
    → current_role target x s ≡ some r
    → is_owner r ≡ false
    → delete_where (membership_of x target) s.memberships ≡ s'.memberships
    → IsGoverned o s
    → IsGoverned o s'
removed-IsGoverned o x target s s' is plain e (u, one) =
    let (m, q, k) = current_role-row target x s is in
    let kept = UniqueMembers-delete_where (membership_of x target) s.memberships u in
    let count = delete_owners x target o s.memberships u q (ap is_owner k ∙ plain) in
    subst (λ rows. UniqueMembers rows × (rows_affected (is_owner_of o) rows ≡ 1)) e
      (kept, count ∙ one)

same-IsGoverned :
    (o : String) (s s' : Store) → s.memberships ≡ s'.memberships → IsGoverned o s → IsGoverned o s'
same-IsGoverned o s s' e g =
    subst (λ rows. UniqueMembers rows × (rows_affected (is_owner_of o) rows ≡ 1)) e g

memberships_of :
    {a b : Store} → ◌≡◌ {A = Tx Error Store} (commit a) (commit b) → a.memberships ≡ b.memberships
memberships_of h = cc

-- What a removal that succeeds has checked and done: the target had a role other than owner, and
-- the actor is the owner, or an admin whose target is a plain member.
pub remove_membership_lem :
    (x actor target : String) (now : ℕ) (s s' : Store)
    → remove_membership x actor target now s ≡ commit s'
    → (r a : Role) × (current_role target x s ≡ some r)
      × (current_role actor x s ≡ some a)
      × (is_owner r ≡ false)
      × ((is_owner a ≡ true) ⊎ ((is_admin a ≡ true) × (is_member r ≡ true)))
      × (delete_where (membership_of x target) s.memberships ≡ s'.memberships)
unfolding remove_membership allows
remove_membership_lem x actor target now s s' h =
    let (may, h₁) = guard_passed (permits (current_role actor x s) remove_member) forbidden _ h in
    elim (Option-cases (current_role target x s)) [
      | inl e ↦ let h₂ : rollback not_found ≡ commit s' = rw e at h₁ in cc
      | inr (r, e) ↦ elim (Option-cases (current_role actor x s)) [
        | inl f ↦ absurd (false≢true (rw f at may))
        | inr (a, f) ↦
            let h₂ = rw (e, f) at h₁ in
            let (fits, h₃) =
              guard_passed (not (is_owner r || (is_admin a && not (is_member r)))) forbidden _ h₂ in
            let may' : permits (some a) remove_member ≡ true = rw f at may in
            (r, a, e, f, not_owner r a fits, may_remove r a fits may', memberships_of h₃)
      ]
    ]
  where
    not_owner :
        (r a : Role)
        → not (is_owner r || (is_admin a && not (is_member r))) ≡ true
        → is_owner r ≡ false
    not_owner r a h = ground arith

    may_remove :
        (r a : Role)
        → not (is_owner r || (is_admin a && not (is_member r))) ≡ true
        → permits (some a) remove_member ≡ true
        → (is_owner a ≡ true) ⊎ ((is_admin a ≡ true) × (is_member r ≡ true))
    may_remove r owner h k = inl refl
    may_remove r admin h k = inr (refl, ground arith)
    may_remove r member h k = absurd (false≢true k)
    may_remove r (other _) h k = absurd (false≢true k)

leave_organization_lem :
    (x user : String) (now : ℕ) (s s' : Store)
    → leave_organization x user now s ≡ commit s'
    → (r : Role) × (current_role user x s ≡ some r)
      × (is_owner r ≡ false)
      × (delete_where (membership_of x user) s.memberships ≡ s'.memberships)
unfolding leave_organization
leave_organization_lem x user now s s' h = elim (Option-cases (current_role user x s)) [
  | inl e ↦ let h₂ : rollback not_found ≡ commit s' = rw (leave_organization, e) at h in cc
  | inr (r, e) ↦
      let h₁ = rw (leave_organization, e) at h in
      let (fits, h₂) = guard_passed (not (is_owner r)) conflict _ h₁ in
      (r, e, ground arith, memberships_of h₂)
]

Step-IsGoverned : (o : String) {s s' : Store} → Step s s' → IsGoverned o s → IsGoverned o s'
unfolding create_invitation revoke_invitation disconnect_line_connection
Step-IsGoverned o {s} {s'} (changing x actor target new now h) (u, one) =
    let (u', same) = change_role-owners x actor target new now s s' o h u in (u', same ∙ one)
Step-IsGoverned o {s} {s'} (transferring x actor target now h) (u, one) =
    transfer_owners x actor target now s s' o h u one
Step-IsGoverned o {s} {s'} (removing x actor target now h) g =
    let (r, a, is, by, plain, may, e) = remove_membership_lem x actor target now s s' h in
    removed-IsGoverned o x target s s' is plain e g
Step-IsGoverned o {s} {s'} (leaving x user now h) g =
    let (r, is, plain, e) = leave_organization_lem x user now s s' h in
    removed-IsGoverned o x user s s' is plain e g
Step-IsGoverned o {s} {s'} (inviting i h) g =
    let (may, h₁) =
      guard_passed (permits (current_role i.actor_user_id i.organization_id s) invite_member)
        forbidden _ h in
    let (fresh, h₂) = guard_passed (invitation_insertable i s.invitations) conflict _ h₁ in
    same-IsGoverned o s s' (memberships_of h₂) g
Step-IsGoverned o {s} {s'} (revoking x actor id now h) g =
    let (may, h₁) = guard_passed (permits (current_role actor x s) invite_member) forbidden _ h in
    let (one, h₂) =
      guard_passed (rows_affected (revocable x id now) s.invitations == 1) not_found _ h₁ in
    same-IsGoverned o s s' (memberships_of h₂) g
Step-IsGoverned o {s} {s'} (disconnecting x actor id now h) g =
    let (may, h₁) = guard_passed (permits (current_role actor x s) manage_group) forbidden _ h in
    let (one, h₂) =
      guard_passed (rows_affected (is_live_connection x id) s.connections == 1) not_found _ h₁ in
    same-IsGoverned o s s' (memberships_of h₂) g

-- From a store where an organization has one owner, and each user at most one membership of each
-- organization, every sequence of mutations that succeed leads to such a store.
pub one_owner : (o : String) {s s' : Store} → Run s s' → IsGoverned o s → IsGoverned o s'
one_owner o still g = g
one_owner o (then_step run step) g = Step-IsGoverned o step (one_owner o run g)
