-- ===== src/Auth/Vault.antt =====
-- What the table of sessions promises: each token is unused, grants access, or is spent. The rows,
-- their idle expiries and their order are forgotten (api/internal/postgres/auth.go).
use plaiflowapp.Base.{
  ℕ, Bool, ◌≡◌, refl, List, Option, none, some, String, str_eq, if◌then◌else◌, Bool-cases, ◌⊎◌, inl,
  inr, eq_iff,
}
use plaiflowapp.Sql.{query_row}
use plaiflowapp.Auth.{SessionRecord, SessionRow, Store, is_null}
use plaiflowapp.Auth.Sessions.{has_token}
use plaiflowapp.Auth.Ops.{
  Op, starting, consuming, logging_in, creating, resolving, revoking, revoking_user, linking,
  reauthenticating, unlinking,
}

pub record Grant : Type 0 where
  pub id : String
  pub user_id : String
  pub csrf_hash : String
  pub authenticated_at : ℕ
  pub authenticated_provider : String
  pub absolute_expires_at : ℕ

pub data Entry : Type 0 where
  unused spent : Entry
  active : Grant → Entry

abbrev pub Vault : Type 0
Vault = String → Entry

abbrev pub grant_of : SessionRecord → Grant
grant_of r = record {
  id = r.id;
  user_id = r.user_id;
  csrf_hash = r.csrf_hash;
  authenticated_at = r.authenticated_at;
  authenticated_provider = r.authenticated_provider;
  absolute_expires_at = r.absolute_expires_at;
}

-- The operations of the abstract register.
abbrev pub issue : SessionRecord → Vault → Vault
issue r v h = if str_eq r.token_hash h then active (grant_of r) else v h

abbrev pub end_entry : (Grant → Bool) → Entry → Entry
end_entry p unused = unused
end_entry p spent = spent
end_entry p (active g) = if p g then spent else active g

abbrev pub end_where : (Grant → Bool) → Vault → Vault
end_where p v h = end_entry p (v h)

abbrev pub has_id : String → Grant → Bool
has_id id g = str_eq g.id id

abbrev pub is_of : String → Grant → Bool
is_of user g = str_eq g.user_id user

abbrev pub rotate : String → SessionRecord → Vault → Vault
rotate old r v = issue r (end_where (has_id old) v)

-- What each transaction does to the register, and when it may.
unfoldable pub spec : Op → Vault → Vault
spec (creating r) v = issue r v
spec (revoking id now) v = end_where (has_id id) v
spec (revoking_user u now) v = end_where (is_of u) v
spec (linking q) v = rotate q.session_id q.new_session v
spec (reauthenticating q) v = rotate q.session_id q.new_session v
spec (unlinking q) v = issue q.new_session (end_where (is_of q.user_id) v)
spec (starting t) v = v
spec (consuming h now) v = v
spec (logging_in e u i now seen) v = v
spec (resolving h now) v = v

unfoldable pub Allowed : Op → Vault → Type 0
Allowed (creating r) v = v r.token_hash ≡ unused
Allowed (linking q) v = v q.new_session.token_hash ≡ unused
Allowed (reauthenticating q) v = v q.new_session.token_hash ≡ unused
Allowed (unlinking q) v = v q.new_session.token_hash ≡ unused
Allowed op v = Unit

-- The register that the rows of a store stand for.
abbrev pub entry_of : Option SessionRow → Entry
entry_of none = unused
entry_of (some r) = if is_null r.revoked_at then active (grant_of r.session) else spent

unfoldable pub view_rows : List SessionRow → Vault
view_rows rows h = entry_of (query_row (has_token h) rows)

abbrev pub view : Store → Vault
view s = view_rows s.sessions

-- How the entry of a token may change: an unused one freely, an active one only to its end.
unfoldable pub Later : Entry → Entry → Type 0
Later unused e = Unit
Later (active g) e = (e ≡ active g) ⊎ (e ≡ spent)
Later spent e = e ≡ spent

pub Later-refl : (e : Entry) → Later e e
unfolding Later
Later-refl unused = tt
Later-refl (active g) = inl refl
Later-refl spent = refl

pub Later-trans : (a b c : Entry) → Later a b → Later b c → Later a c
unfolding Later
Later-trans unused b c h k = tt
Later-trans (active g) b c (inl e) k = let k' : Later (active g) c = rw e at k in k'
Later-trans (active g) b c (inr e) k = let k' : Later spent c = rw e at k in inr k'
Later-trans spent b c h k = let k' : Later spent c = rw h at k in k'

pub Later-end_entry : (p : Grant → Bool) (e : Entry) → Later e (end_entry p e)
unfolding Later
Later-end_entry p unused = tt
Later-end_entry p spent = refl
Later-end_entry p (active g) = elim (Bool-cases (p g)) [
  | inl hit ↦ rw hit (inr refl)
  | inr miss ↦ rw miss (inl refl)
]

Later-issue :
    (r : SessionRecord) (v w : Vault) (h : String)
    → v r.token_hash ≡ unused
    → Later (v h) (w h)
    → Later (v h) (issue r w h)
unfolding Later
Later-issue r v w h free k = elim (Bool-cases (str_eq r.token_hash h)) [
  | inl hit ↦ let e : v h ≡ unused = rw (← (eq_iff r.token_hash h).0 hit) free in rw e tt
  | inr miss ↦ rw miss k
]

-- The transactions that the register allows only ever end the access of a token that was issued.
pub spec-Later : (op : Op) (v : Vault) (h : String) → Allowed op v → Later (v h) (spec op v h)
unfolding spec Allowed
spec-Later (creating r) v h a = Later-issue r v v h a (Later-refl (v h))
spec-Later (revoking id now) v h a = Later-end_entry (has_id id) (v h)
spec-Later (revoking_user u now) v h a = Later-end_entry (is_of u) (v h)
spec-Later (linking q) v h a =
    Later-issue q.new_session v (end_where (has_id q.session_id) v) h a
      (Later-end_entry (has_id q.session_id) (v h))
spec-Later (reauthenticating q) v h a =
    Later-issue q.new_session v (end_where (has_id q.session_id) v) h a
      (Later-end_entry (has_id q.session_id) (v h))
spec-Later (unlinking q) v h a =
    Later-issue q.new_session v (end_where (is_of q.user_id) v) h a
      (Later-end_entry (is_of q.user_id) (v h))
spec-Later (starting t) v h a = Later-refl (v h)
spec-Later (consuming x now) v h a = Later-refl (v h)
spec-Later (logging_in e u i now seen) v h a = Later-refl (v h)
spec-Later (resolving x now) v h a = Later-refl (v h)
