-- ===== src/Auth/Refinement.antt =====
-- The rows of sessions implement the register of tokens (api/internal/postgres/auth.go).
use plaiflowapp.Base.{
  ℕ, Bool, true, false, ◌&&◌, ◌≡◌, refl, sym, ap, ◌∙◌, List, [], ◌∷◌, none, some, String, str_eq,
  if◌then◌else◌, Bool-cases, inl, inr, any, arith, ◌⊎◌,
}
use plaiflowapp.Sql.{update_where, query_row}
use plaiflowapp.Auth.{SessionRecord, SessionRow, is_null}
use plaiflowapp.Auth.Sessions.{has_token, revoke, touch}
use plaiflowapp.Auth.Ops.{
  Op, starting, consuming, logging_in, creating, resolving, revoking, revoking_user, linking,
  reauthenticating, unlinking,
}
use plaiflowapp.Auth.Vault.{
  Grant, Entry, unused, spent, active, grant_of, issue, end_entry, end_where, has_id, is_of, spec,
  Allowed, entry_of, view_rows,
}

view_rows-update_where :
    (p : SessionRow → Bool) (f : SessionRow → SessionRow) (g : Entry → Entry)
    → ((h : String) (r : SessionRow) → has_token h (f r) ≡ has_token h r)
    → ((r : SessionRow) → p r ≡ true → entry_of (some (f r)) ≡ g (entry_of (some r)))
    → ((r : SessionRow) → p r ≡ false → entry_of (some r) ≡ g (entry_of (some r)))
    → g unused ≡ unused
    → (rows : List SessionRow) (h : String)
    → view_rows (update_where p f rows) h ≡ g (view_rows rows h)
unfolding view_rows query_row update_where
view_rows-update_where p f g same hit miss idle [] h = sym idle
view_rows-update_where p f g same hit miss idle (r ∷ rows) h =
    let ih = view_rows-update_where p f g same hit miss idle rows h in
    elim (Bool-cases (p r)) [
      | inl is ↦ elim (Bool-cases (has_token h r)) [
        | inl here ↦ rw (is, same h r, here) (hit r is)
        | inr there ↦ rw (is, same h r, there) ih
      ]
      | inr isnt ↦ elim (Bool-cases (has_token h r)) [
        | inl here ↦ rw (isnt, here) (miss r isnt)
        | inr there ↦ rw (isnt, there) ih
      ]
    ]

-- A revocation of the sessions whose grants meet a test.
pub view_rows-revoke :
    (q : Grant → Bool) (now : ℕ) (rows : List SessionRow) (h : String)
    → view_rows
        (update_where (λ r. q (grant_of r.session) && is_null r.revoked_at) (revoke now) rows)
        h
      ≡ end_where q (view_rows rows) h
view_rows-revoke q now =
    view_rows-update_where (λ r. q (grant_of r.session) && is_null r.revoked_at) (revoke now)
      (end_entry q) (λ h r. refl)
      (λ r is.
        let (yes_q, null) = both (q (grant_of r.session)) (is_null r.revoked_at) is in
        rw (null, yes_q) refl)
      (λ r isnt. elim (Bool-cases (is_null r.revoked_at)) [
        | inl null ↦
            let no_q : q (grant_of r.session) ≡ false = ground arith in rw (null, no_q) refl
        | inr gone ↦ rw gone refl
      ])
      refl
  where
    both : (a b : Bool) → (a && b) ≡ true → (a ≡ true) × (b ≡ true)
    both a b h = (ground arith, ground arith)

view_rows-touch :
    (p : SessionRow → Bool) (now idle : ℕ) (rows : List SessionRow) (h : String)
    → view_rows (update_where p (touch now idle) rows) h ≡ view_rows rows h
view_rows-touch p now idle =
    view_rows-update_where p (touch now idle) (λ e. e) (λ h r. refl) (λ r is. refl) (λ r isnt. refl)
      refl

not_any :
    (h : String) (rows : List SessionRow)
    → any (has_token h) rows ≡ false
    → view_rows rows h ≡ unused
unfolding view_rows query_row
not_any h [] e = refl
not_any h (r ∷ rows) e = elim (Bool-cases (has_token h r)) [
  | inl here ↦ absurd (ground arith)
  | inr there ↦ rw there (not_any h rows (ground arith))
]

-- What each transaction writes to the rows of sessions.
abbrev pub ended : (Grant → Bool) → ℕ → List SessionRow → List SessionRow
ended q now = update_where (λ r. q (grant_of r.session) && is_null r.revoked_at) (revoke now)

abbrev pub Added : SessionRecord → List SessionRow → List SessionRow → Type 0
Added r rows rows' =
    (any (has_token r.token_hash) rows ≡ false)
    × (record { session = r; revoked_at = none } ∷ rows ≡ rows')

unfoldable pub Written : Op → List SessionRow → List SessionRow → Type 0
Written (creating r) rows rows' = Added r rows rows'
Written (revoking id now) rows rows' = ended (has_id id) now rows ≡ rows'
Written (revoking_user u now) rows rows' = ended (is_of u) now rows ≡ rows'
Written (linking q) rows rows' = Added q.new_session (ended (has_id q.session_id) q.now rows) rows'
Written (reauthenticating q) rows rows' =
    Added q.new_session (ended (has_id q.session_id) q.now rows) rows'
Written (unlinking q) rows rows' = Added q.new_session (ended (is_of q.user_id) q.now rows) rows'
Written (resolving h now) rows rows' =
    (rows ≡ rows')
    ⊎ ((p : SessionRow → Bool) × (idle : ℕ) × (update_where p (touch now idle) rows ≡ rows'))
Written (starting t) rows rows' = rows ≡ rows'
Written (consuming h now) rows rows' = rows ≡ rows'
Written (logging_in e u i now seen) rows rows' = rows ≡ rows'

Added-view :
    (r : SessionRecord) (rows rows' : List SessionRow)
    → Added r rows rows'
    → (view_rows rows r.token_hash ≡ unused)
      × ((k : String) → view_rows rows' k ≡ issue r (view_rows rows) k)
unfolding view_rows query_row
Added-view r rows rows' (free, e) =
    (not_any r.token_hash rows free, λ k. ap (λ x. view_rows x k) (sym e) ∙ first k)
  where
    first :
        (k : String)
        → view_rows (record { session = r; revoked_at = none } ∷ rows) k
          ≡ issue r (view_rows rows) k
    first k = elim (Bool-cases (str_eq r.token_hash k)) [
      | inl here ↦ rw here refl
      | inr there ↦ rw there refl
    ]

end_entry-unused : (q : Grant → Bool) (e : Entry) → end_entry q e ≡ unused → e ≡ unused
end_entry-unused q unused h = refl
end_entry-unused q spent h = cc
end_entry-unused q (active g) h = elim (Bool-cases (q g)) [
  | inl hit ↦ let h' : ◌≡◌ {A = Entry} spent unused = rw hit at h in cc
  | inr miss ↦ let h' : ◌≡◌ {A = Entry} (active g) unused = rw miss at h in cc
]

Reissued-view :
    (q : Grant → Bool) (now : ℕ) (r : SessionRecord) (rows rows' : List SessionRow)
    → Added r (ended q now rows) rows'
    → (view_rows rows r.token_hash ≡ unused)
      × ((k : String) → view_rows rows' k ≡ issue r (end_where q (view_rows rows)) k)
Reissued-view q now r rows rows' a =
    let (free, new) = Added-view r (ended q now rows) rows' a in
    let back = view_rows-revoke q now rows in
    (
      end_entry-unused q (view_rows rows r.token_hash) (sym (back r.token_hash) ∙ free),
      λ k. new k ∙ ap (λ v. if str_eq r.token_hash k then active (grant_of r) else v) (back k),
    )

pub Written-spec :
    (op : Op) (rows rows' : List SessionRow)
    → Written op rows rows'
    → Allowed op (view_rows rows) × ((k : String) → view_rows rows' k ≡ spec op (view_rows rows) k)
unfolding Written Allowed spec
Written-spec (creating r) rows rows' w = Added-view r rows rows' w
Written-spec (revoking id now) rows rows' w =
    (tt, λ k. ap (λ x. view_rows x k) (sym w) ∙ view_rows-revoke (has_id id) now rows k)
Written-spec (revoking_user u now) rows rows' w =
    (tt, λ k. ap (λ x. view_rows x k) (sym w) ∙ view_rows-revoke (is_of u) now rows k)
Written-spec (linking q) rows rows' w =
    Reissued-view (has_id q.session_id) q.now q.new_session rows rows' w
Written-spec (reauthenticating q) rows rows' w =
    Reissued-view (has_id q.session_id) q.now q.new_session rows rows' w
Written-spec (unlinking q) rows rows' w =
    Reissued-view (is_of q.user_id) q.now q.new_session rows rows' w
Written-spec (resolving h now) rows rows' (inl e) = (tt, λ k. ap (λ x. view_rows x k) (sym e))
Written-spec (resolving h now) rows rows' (inr (p, idle, e)) =
    (tt, λ k. ap (λ x. view_rows x k) (sym e) ∙ view_rows-touch p now idle rows k)
Written-spec (starting t) rows rows' e = (tt, λ k. ap (λ x. view_rows x k) (sym e))
Written-spec (consuming h now) rows rows' e = (tt, λ k. ap (λ x. view_rows x k) (sym e))
Written-spec (logging_in e u i now seen) rows rows' w = (tt, λ k. ap (λ x. view_rows x k) (sym w))
