-- ===== src/Samples/Tenant.antt =====
-- An organization with an owner and a member, and an invitation
-- (api/internal/postgres/tenant.go).
use plaiflowapp.Base.{
  true, false, ◌&&◌, ◌≡◌, refl, subst, inl, inr, [], ◌∷◌, ◌⊎◌, none, some, arith, String, str_eq,
  eq_iff, Bool-cases,
}
use plaiflowapp.Sql.{commit, rollback, Tx, update_where, delete_where, query_row, rows_affected}
use plaiflowapp.Tenant.{
  Role, owner, member, Membership, Invitation, Store, Error, allows, current_role, membership_of,
  is_owner, is_admin, is_member, transfer_ownership_of, demoted, promoted, leave_organization,
  remove_membership,
}
use plaiflowapp.Tenant.Inviting.{revoke_invitation}
use plaiflowapp.Tenant.Transfer.{transfer_by_owner}
use plaiflowapp.Tenant.Lifecycle.{
  still, then_step, transferring, leaving, IsGoverned, one_owner, remove_membership_lem,
}

abbrev founder : Membership
founder = record { organization_id = "o"; user_id = "a"; role = owner; updated_at = 0 }

abbrev colleague : Membership
colleague = record { organization_id = "o"; user_id = "b"; role = member; updated_at = 0 }

abbrev open_invitation : Invitation
open_invitation = record {
  id = "i";
  organization_id = "o";
  inviter_user_id = "a";
  token_hash = "h";
  created_at = 1;
  expires_at = 100;
  revoked_at = none;
  accepted_at = none;
}

abbrev pub office : Store
office = record {
  memberships = founder ∷ colleague ∷ [];
  invitations = open_invitation ∷ [];
  connections = [];
  audit = [];
}

abbrev settled : Tx Error Store → Store
settled (commit s) = s
settled (rollback e) = office

apart : (u : String) → (str_eq "a" u && str_eq "b" u) ≡ false
apart u = elim (Bool-cases (str_eq "a" u)) [
  | inr miss ↦ rw miss refl
  | inl hit ↦ subst (λ v. (str_eq "a" v && str_eq "b" v) ≡ false) ((eq_iff "a" u).0 hit) refl
]

office-IsGoverned : IsGoverned "o" office
unfolding rows_affected
office-IsGoverned = (λ o u. let e = apart u in ground arith, refl)

unfoldable handed_over : Store
unfolding transfer_ownership_of current_role query_row rows_affected promoted demoted update_where
handed_over = settled (transfer_ownership_of "o" "a" "b" 5 office)

hands_over : transfer_ownership_of "o" "a" "b" 5 office ≡ commit handed_over
unfolding handed_over
hands_over = refl

unfoldable deserted : Store
unfolding handed_over leave_organization current_role query_row delete_where
deserted = settled (leave_organization "o" "a" 6 handed_over)

leaves : leave_organization "o" "a" 6 handed_over ≡ commit deserted
unfolding deserted
leaves = refl

one_owner_example : IsGoverned "o" deserted
one_owner_example =
    one_owner "o"
      (then_step (then_step still (transferring "o" "a" "b" 5 hands_over))
        (leaving "o" "a" 6 leaves))
      office-IsGoverned

transfer_by_owner_example :
    (current_role "a" "o" office ≡ some owner)
    ⊎ ((current_role "a" "o" office ≡ none) × (current_role "b" "o" office ≡ some owner))
transfer_by_owner_example =
    transfer_by_owner "o" "a" "b" 5 office handed_over hands_over office-IsGoverned.0
      office-IsGoverned.1

unfoldable dismissed : Store
unfolding remove_membership current_role query_row delete_where allows
dismissed = settled (remove_membership "o" "a" "b" 5 office)

dismisses : remove_membership "o" "a" "b" 5 office ≡ commit dismissed
unfolding dismissed
dismisses = refl

remove_membership_lem_example :
    (r a : Role) × (current_role "b" "o" office ≡ some r)
    × (current_role "a" "o" office ≡ some a)
    × (is_owner r ≡ false)
    × ((is_owner a ≡ true) ⊎ ((is_admin a ≡ true) × (is_member r ≡ true)))
    × (delete_where (membership_of "o" "b") office.memberships ≡ dismissed.memberships)
remove_membership_lem_example = remove_membership_lem "o" "a" "b" 5 office dismissed dismisses

unfoldable withdrawn : Store
unfolding revoke_invitation current_role query_row rows_affected update_where allows
withdrawn = settled (revoke_invitation "o" "a" "i" 5 office)

-- The invitation is withdrawn, and then the member leaves.
unfoldable vacated : Store
unfolding withdrawn leave_organization revoke_invitation current_role query_row rows_affected
    update_where delete_where
vacated = settled (leave_organization "o" "b" 7 withdrawn)
