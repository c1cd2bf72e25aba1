-- ===== src/Tenant.antt =====
-- Organizations and their members: api/internal/tenant/tenant.go, and the mutations of
-- api/internal/postgres/tenant.go with the SQL function that transfers ownership
-- (api/migrations/000002_phase1_auth_tenants.up.sql). A value of `Role` outside the three constants
-- is `other`; times are numbers.
pub mod Inviting
pub mod Owners
pub mod Invitations
pub mod Transfer
pub mod Lifecycle
use plaiflowapp.Base.{
  ℕ, ◌+◌, Bool, true, false, not, ◌&&◌, ◌||◌, List, [], ◌∷◌, ◌++◌, Option, none, some, String,
  str_eq, ltb, leb, ◌==◌, if◌then◌else◌,
}
use plaiflowapp.Sql.{
  Tx, commit, rollback, ◌>>=◌, ◌>>◌, guard, update_where, delete_where, rows_affected, query_row,
}

pub data Role : Type 0 where
  owner admin member : Role
  other : String → Role

pub data Action : Type 0 where
  edit_organization invite_member remove_member manage_roles transfer_ownership manage_group :
      Action

unfoldable pub allows : Role → Action → Bool
allows owner action = true
allows admin edit_organization = true
allows admin invite_member = true
allows admin remove_member = true
allows admin manage_group = true
allows admin _ = false
allows _ _ = false

abbrev pub is_owner : Role → Bool
is_owner owner = true
is_owner _ = false

abbrev pub is_admin : Role → Bool
is_admin admin = true
is_admin _ = false

abbrev pub is_member : Role → Bool
is_member member = true
is_member _ = false

pub record Membership : Type 0 where
  pub organization_id : String
  pub user_id : String
  pub role : Role
  pub updated_at : ℕ

pub record Invitation : Type 0 where
  pub id : String
  pub organization_id : String
  pub inviter_user_id : String
  pub token_hash : String
  pub created_at : ℕ
  pub expires_at : ℕ
  pub revoked_at : Option ℕ
  pub accepted_at : Option ℕ

pub record LineConnection : Type 0 where
  pub id : String
  pub organization_id : String
  pub connected : Bool
  pub disconnected_by : String
  pub disconnected_at : Option ℕ

pub record AuditEvent : Type 0 where
  pub organization_id : String
  pub actor_user_id : String
  pub event_type : String
  pub target_id : String
  pub occurred_at : ℕ

pub record Store : Type 0 where
  pub memberships : List Membership
  pub invitations : List Invitation
  pub connections : List LineConnection
  pub audit : List AuditEvent

pub data Error : Type 0 where
  not_found forbidden conflict : Error

-- WHERE organization_id = … AND user_id = …
abbrev pub membership_of : String → String → Membership → Bool
membership_of organization user m = str_eq m.organization_id organization && str_eq m.user_id user

-- `membershipFor`, and `currentRole` with its role.
unfoldable pub current_role : String → String → Store → Option Role
current_role user organization s =
    elim (query_row (membership_of organization user) s.memberships) [
      | none ↦ none
      | some m ↦ some m.role
    ]

-- `role, err := currentRole(…); if err != nil || !role.Allows(action) { return ErrForbidden }`
abbrev pub permits : Option Role → Action → Bool
permits none action = false
permits (some role) action = allows role action

abbrev pub audited : String → String → String → String → ℕ → Store → Store
audited organization actor event target now s = record s {
  audit =
      s.audit
      ++ record {
        organization_id = organization;
        actor_user_id = actor;
        event_type = event;
        target_id = target;
        occurred_at = now;
      }
        ∷ [];
}

-- The row that `ChangeRole` updates.
abbrev pub changeable : String → String → String → Membership → Bool
changeable organization target actor m =
    membership_of organization target m && not (str_eq m.user_id actor) && not (is_owner m.role)

unfoldable pub change_role : String → String → String → Role → ℕ → Store → Tx Error Store
change_role organization actor target new_role now s = do
  guard (is_admin new_role || is_member new_role) forbidden
  guard (permits (current_role actor organization s) manage_roles) forbidden
  guard (rows_affected (changeable organization target actor) s.memberships == 1) not_found
  commit (
      audited organization actor "membership.role_change" target now (record s {
        memberships =
            update_where (changeable organization target actor)
              (λ (m : Membership). record m { role = new_role; updated_at = now }) s.memberships;
      }))

-- IF organization_role(actor) <> 'Owner' OR NOT is_organization_member(target) OR actor = target:
-- the first test is NULL if the actor is no member, and then only the other two can raise.
abbrev pub transfer_raises : Option Role → Option Role → Bool → Bool
transfer_raises actor_role target_role same =
    elim actor_role [ none ↦ false | some r ↦ not (is_owner r) ]
    || elim target_role [ none ↦ true | some r ↦ false ]
    || same

abbrev pub is_owner_of : String → Membership → Bool
is_owner_of organization m = str_eq m.organization_id organization && is_owner m.role

-- The two updates of transfer_organization_ownership.
unfoldable pub demoted : String → String → ℕ → List Membership → List Membership
demoted organization actor now =
    update_where (membership_of organization actor)
      (λ (m : Membership). record m { role = admin; updated_at = now })

unfoldable pub promoted : String → String → ℕ → List Membership → List Membership
promoted organization target now =
    update_where (membership_of organization target)
      (λ (m : Membership). record m { role = owner; updated_at = now })

-- The function raises, or the unique index on the owners of an organization refuses its second
-- update, or it returns.
unfoldable pub transfer_ownership_of : String → String → String → ℕ → Store → Tx Error Store
transfer_ownership_of organization actor target now s = do
  guard
      (not (
        transfer_raises (current_role actor organization s) (current_role target organization s)
          (str_eq actor target)))
      conflict
  let after = promoted organization target now (demoted organization actor now s.memberships)
  guard (leb (rows_affected (is_owner_of organization) after) 1) conflict
  commit (
      audited organization actor "organization.ownership_transfer" target now
        (record s { memberships = after }))

unfoldable pub remove_membership : String → String → String → ℕ → Store → Tx Error Store
remove_membership organization actor target now s = do
  guard (permits (current_role actor organization s) remove_member) forbidden
  elim (current_role target organization s) [
    | none ↦ rollback not_found
    | some target_role ↦ do
      guard
          (not (
            is_owner target_role
            || (elim (current_role actor organization s) [ none ↦ false | some r ↦ is_admin r ]
                && not (is_member target_role))))
          forbidden
      commit (
          audited organization actor "membership.remove" target now (record s {
            memberships = delete_where (membership_of organization target) s.memberships;
          }))
  ]

unfoldable pub leave_organization : String → String → ℕ → Store → Tx Error Store
leave_organization organization user now s = elim (current_role user organization s) [
  | none ↦ rollback not_found
  | some role ↦ do
    guard (not (is_owner role)) conflict
    commit (
        audited organization user "membership.leave" user now
          (record s { memberships = delete_where (membership_of organization user) s.memberships }))
]
