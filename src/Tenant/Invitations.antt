-- ===== src/Tenant/Invitations.antt =====
-- An invitation that was revoked stays so (api/internal/postgres/tenant.go).
use plaiflowapp.Base.{ℕ, ◌<◌, Bool, ◌≡◌, some, String, str_eq, List, ◌&&◌}
use plaiflowapp.Sql.{rows_affected}
use plaiflowapp.Tenant.{Invitation}
use plaiflowapp.Tenant.Inviting.{is_null}

abbrev pub has_id : String → Invitation → Bool
has_id id i = str_eq i.id id

abbrev pub pending : String → Invitation → Bool
pending id i = str_eq i.id id && is_null i.revoked_at

-- The table has the invitation, and every row of it is revoked.
abbrev pub IsWithdrawn : String → List Invitation → Type 0
IsWithdrawn id rows = (0 < rows_affected (has_id id) rows) × (rows_affected (pending id) rows ≡ 0)

abbrev withdrawn_at : ℕ → Invitation → Invitation
withdrawn_at now i = record i { revoked_at = some now }
