-- ===== src/Tenant/Inviting.antt =====
-- Invitations and LINE groups: CreateInvitation, RevokeInvitation and DisconnectLineConnection of
-- api/internal/postgres/tenant.go.
use plaiflowapp.Base.{
  ℕ, Bool, true, false, ◌&&◌, ◌∷◌, Option, none, some, String, str_eq, ltb, ◌==◌, List, any, not,
  ◌||◌,
}
use plaiflowapp.Sql.{Tx, commit, ◌>>◌, guard, update_where, rows_affected}
use plaiflowapp.Tenant.{
  Invitation, LineConnection, Store, Error, current_role, permits, audited, not_found, forbidden,
  conflict, invite_member, manage_group,
}

pub record InviteCreate : Type 0 where
  pub id : String
  pub organization_id : String
  pub actor_user_id : String
  pub token_hash : String
  pub now : ℕ
  pub expires_at : ℕ

-- The primary key, the unique token and the CHECK on the dates.
abbrev pub invitation_insertable : InviteCreate → List Invitation → Bool
invitation_insertable i rows =
    not (any (λ (j : Invitation). str_eq j.id i.id || str_eq j.token_hash i.token_hash) rows)
    && ltb i.now i.expires_at

-- An insertion that the table's constraints refuse ends in `conflict`.
unfoldable pub create_invitation : InviteCreate → Store → Tx Error Store
create_invitation i s = do
  guard (permits (current_role i.actor_user_id i.organization_id s) invite_member) forbidden
  guard (invitation_insertable i s.invitations) conflict
  commit (
      audited i.organization_id i.actor_user_id "invitation.create" i.id i.now (record s {
        invitations =
            record {
              id = i.id;
              organization_id = i.organization_id;
              inviter_user_id = i.actor_user_id;
              token_hash = i.token_hash;
              created_at = i.now;
              expires_at = i.expires_at;
              revoked_at = none;
              accepted_at = none;
            }
            ∷ s.invitations;
      }))

abbrev pub is_null : Option ℕ → Bool
is_null none = true
is_null (some t) = false

abbrev pub revocable : String → String → ℕ → Invitation → Bool
revocable organization id now i =
    str_eq i.id id
    && str_eq i.organization_id organization
    && is_null i.revoked_at
    && is_null i.accepted_at
    && ltb now i.expires_at

unfoldable pub revoke_invitation : String → String → String → ℕ → Store → Tx Error Store
revoke_invitation organization actor id now s = do
  guard (permits (current_role actor organization s) invite_member) forbidden
  guard (rows_affected (revocable organization id now) s.invitations == 1) not_found
  commit (
      audited organization actor "invitation.revoke" id now (record s {
        invitations =
            update_where (revocable organization id now)
              (λ (i : Invitation). record i { revoked_at = some now }) s.invitations;
      }))

abbrev pub is_live_connection : String → String → LineConnection → Bool
is_live_connection organization id c =
    str_eq c.id id && str_eq c.organization_id organization && c.connected

unfoldable pub disconnect_line_connection : String → String → String → ℕ → Store → Tx Error Store
disconnect_line_connection organization actor id now s = do
  guard (permits (current_role actor organization s) manage_group) forbidden
  guard (rows_affected (is_live_connection organization id) s.connections == 1) not_found
  commit (
      audited organization actor "line.group_disconnect" id now (record s {
        connections =
            update_where (is_live_connection organization id)
              (λ (c : LineConnection). record c {
                connected = false;
                disconnected_by = actor;
                disconnected_at = some now;
              })
              s.connections;
      }))
