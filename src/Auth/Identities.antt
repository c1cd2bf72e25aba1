-- ===== src/Auth/Identities.antt =====
-- The identities that a user can sign in with: `Login`, `LinkIdentityAndRotate` and
-- `UnlinkIdentityAndRotate` among the transactions of api/internal/postgres/auth.go.
use plaiflowapp.Base.{
  ℕ, ◌≤◌, Bool, true, false, ◌&&◌, ◌≡◌, refl, subst, ◌∙◌, List, ◌∷◌, none, String, str_eq,
  Bool-cases, inl, inr, any, arith, eq_iff,
}
use plaiflowapp.Sql.Runs.{run_keeps}
use plaiflowapp.Sql.{commit, guard_passed, bind_passed, commit_injective, rows_affected}
use plaiflowapp.Sql.Counting.{rows_affected-update_where, rows_affected_mono, rows_affected_none}
use plaiflowapp.Auth.{
  User, Identity, ExternalIdentity, Store, attempt_fits, create_auth_transaction,
  consume_auth_transaction, refused,
}
use plaiflowapp.Auth.Sessions.{revoke_session, revoke_user_sessions}
use plaiflowapp.Auth.Accounts.{
  LinkRequest, UnlinkRequest, login, enabled_of, enabled_at, names, linked_again, disabled,
  new_identity,
}
use plaiflowapp.Auth.Passed.{
  Kept, consume_auth_transaction_lem, login_lem, insert_identity_lem, joined,
}
use plaiflowapp.Auth.Rotated.{
  Linked, link_identity_and_rotate_lem, reauthenticate_and_rotate_lem,
  unlink_identity_and_rotate_lem, without,
}
use plaiflowapp.Auth.Keeping.{insert_session-Kept, rotate_session-Kept, exec_resolving-Kept}
use plaiflowapp.Auth.Ops.{
  Op, starting, consuming, logging_in, creating, resolving, revoking, revoking_user, linking,
  reauthenticating, unlinking, exec, run,
}

abbrev pub is_user : String → List User → Bool
is_user u users = any (λ (x : User). str_eq x.id u) users

-- Every user has an identity that is enabled.
abbrev pub AllEnrolled : List User → List Identity → Type 0
AllEnrolled users identities =
    (u : String) → is_user u users ≡ true → 1 ≤ rows_affected (enabled_of u) identities

Kept-AllEnrolled :
    (s s' : Store)
    → Kept s s'
    → AllEnrolled s.users s.identities
    → AllEnrolled s'.users s'.identities
Kept-AllEnrolled s s' (us, is, ts) h =
    subst (λ us. AllEnrolled us s'.identities) us (subst (AllEnrolled s.users) is h)

-- A new identity, of a user that may be new.
added-AllEnrolled :
    (id user : String) (e : ExternalIdentity) (now : ℕ) (s : Store)
    → AllEnrolled s.users s.identities
    → AllEnrolled s.users (new_identity id user e now ∷ s.identities)
unfolding rows_affected
added-AllEnrolled id user e now s h u is = let k = h u is in omega (arith, k)

logged_in-AllEnrolled :
    (id user : String) (e : ExternalIdentity) (now : ℕ) (s : Store)
    → AllEnrolled s.users s.identities
    → AllEnrolled (joined e user now s).users (new_identity id user e now ∷ s.identities)
unfolding rows_affected
logged_in-AllEnrolled id user e now s h u is = elim (Bool-cases (str_eq user u)) [
  | inl same ↦ rw same (omega arith)
  | inr other ↦
      let known : is_user u s.users ≡ true = rw other at is in let k = h u known in omega (arith, k)
]

-- A link only enables identities.
Linked-AllEnrolled :
    (q : LinkRequest) (s t : Store)
    → Linked q s t
    → AllEnrolled s.users s.identities
    → AllEnrolled t.users t.identities
Linked-AllEnrolled q s t (inl (i, e, mine, off, only, is)) h =
    subst (λ (y : Store). AllEnrolled y.users y.identities) is
      λ u known.
        let p = names q.identity in
        let f = linked_again q.identity q.now in
        let d = rows_affected-update_where p (enabled_of u) f s.identities in
        let more =
          rows_affected_mono (λ x. p x && enabled_of u x) (λ x. p x && enabled_of u (f x))
            s.identities (λ x hit. ground arith) in
        let k = h u known in omega (arith, d, more, k)
Linked-AllEnrolled q s t (inr is) h =
    let (free, known, e) = insert_identity_lem q.new_session.id q.user_id q.identity q.now s t is in
    subst (λ (y : Store). AllEnrolled y.users y.identities) e
      (added-AllEnrolled q.new_session.id q.user_id q.identity q.now s h)

-- An unlinking disables one identity of a user that has two.
without-AllEnrolled :
    (q : UnlinkRequest) (s : Store)
    → 2 ≤ rows_affected (enabled_of q.user_id) s.identities
    → rows_affected (enabled_at q.user_id q.provider) s.identities ≡ 1
    → AllEnrolled s.users s.identities
    → AllEnrolled s.users (without q s).identities
without-AllEnrolled q s two one h u known =
    let p = enabled_at q.user_id q.provider in
    let d = rows_affected-update_where p (enabled_of u) (disabled q) s.identities in
    elim (Bool-cases (str_eq q.user_id u)) [
      | inl same ↦
          let fewer =
            rows_affected_mono (λ x. p x && enabled_of u x) p s.identities
              (λ x hit. ground arith) in
          let two' =
            subst (λ y. 2 ≤ rows_affected (enabled_of y) s.identities) ((eq_iff q.user_id u).0 same)
              two in
          omega (arith, d, fewer, two', one)
      | inr other ↦
          let apart =
            rows_affected_none (λ x. p x && enabled_of u x) s.identities
              (λ x i. others x u other) in
          let k = h u known in omega (arith, d, apart, k)
    ]
  where
    others :
        (x : Identity) (u : String)
        → str_eq q.user_id u ≡ false
        → (enabled_at q.user_id q.provider x && enabled_of u x) ≡ false
    others x u other = elim (Bool-cases (str_eq x.user_id q.user_id)) [
      | inr miss ↦ rw miss refl
      | inl hit ↦
          let e : str_eq x.user_id u ≡ false = rw (← (eq_iff x.user_id q.user_id).0 hit) at other in
          rw e (ground arith)
    ]

exec-AllEnrolled :
    (op : Op) (s s' : Store)
    → exec op s ≡ commit s'
    → AllEnrolled s.users s.identities
    → AllEnrolled s'.users s'.identities
unfolding exec create_auth_transaction revoke_session revoke_user_sessions
exec-AllEnrolled (starting t) s s' e h =
    let (fits, done) = guard_passed (attempt_fits t s) refused _ e in
    let is : record s { attempts = record { attempt = t; consumed_at = none } ∷ s.attempts } ≡ s' =
      commit_injective done in
    subst (λ (y : Store). AllEnrolled y.users y.identities) is h
exec-AllEnrolled (consuming k now) s s' e h =
    let ((t, u), first, done) = bind_passed (consume_auth_transaction k now s) _ e in
    let (a, is, of, same) = consume_auth_transaction_lem k now s u t first in
    subst (λ (y : Store). AllEnrolled y.users y.identities) (same ∙ commit_injective done) h
exec-AllEnrolled (logging_in x u i now seen) s s' e h =
    let ((r, t), first, done) = bind_passed (login x u i now seen s) _ e in
    let same : t ≡ s' = commit_injective done in
    elim (login_lem x u i now seen s t r first) [
      | inl k ↦ subst (λ (y : Store). AllEnrolled y.users y.identities) (k ∙ same) h
      | inr (w, new, is, k) ↦
          let (free, known, j) = insert_identity_lem i u x now (joined x u now s) w is in
          let at_w =
            subst (λ (y : Store). AllEnrolled y.users y.identities) j
              (logged_in-AllEnrolled i u x now s h) in
          subst (λ (y : Store). AllEnrolled y.users y.identities) (k ∙ same) at_w
    ]
exec-AllEnrolled (creating r) s s' e h = Kept-AllEnrolled s s' (insert_session-Kept r s s' e) h
exec-AllEnrolled (resolving x now) s s' e h =
    Kept-AllEnrolled s s' (exec_resolving-Kept x now s s' e) h
exec-AllEnrolled (revoking id now) s s' e h =
    let is : revoke_session id now s ≡ s' = commit_injective e in
    subst (λ (y : Store). AllEnrolled y.users y.identities) is h
exec-AllEnrolled (revoking_user u now) s s' e h =
    let is : revoke_user_sessions u now s ≡ s' = commit_injective e in
    subst (λ (y : Store). AllEnrolled y.users y.identities) is h
exec-AllEnrolled (linking q) s s' e h =
    let (t, u, linked, rotated, done) = link_identity_and_rotate_lem q s s' e in
    let at_u =
      Kept-AllEnrolled t u (rotate_session-Kept q.session_id q.new_session q.now t u rotated)
        (Linked-AllEnrolled q s t linked h) in
    subst (λ (y : Store). AllEnrolled y.users y.identities) done at_u
exec-AllEnrolled (reauthenticating q) s s' e h =
    let (i, is, mine, rotated) = reauthenticate_and_rotate_lem q s s' e in
    Kept-AllEnrolled s s' (rotate_session-Kept q.session_id q.new_session q.now s s' rotated) h
exec-AllEnrolled (unlinking q) s s' e h =
    let (two, one, u, inserted, done) = unlink_identity_and_rotate_lem q s s' e in
    let kept =
      insert_session-Kept q.new_session (revoke_user_sessions q.user_id q.now (without q s)) u
        inserted in
    subst (λ (y : Store). AllEnrolled y.users y.identities) done
      (Kept-AllEnrolled (revoke_user_sessions q.user_id q.now (without q s)) u kept
        (without-AllEnrolled q s two one h))

-- If every user has an enabled identity, every user, new ones included, has one after any sequence
-- of transactions.
pub all_enrolled :
    (ops : List Op) (s : Store)
    → AllEnrolled s.users s.identities
    → AllEnrolled (run ops s).users (run ops s).identities
all_enrolled = run_keeps exec (λ s. AllEnrolled s.users s.identities) exec-AllEnrolled
