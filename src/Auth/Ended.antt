-- ===== src/Auth/Ended.antt =====
-- The end of a session: `RevokeSession`, `RevokeUserSessions`, the rotations and the absolute expiry
-- (api/internal/postgres/auth.go).
use plaiflowapp.Base.{
  ℕ, ◌≤◌, ◌<◌, Bool, true, ◌≡◌, refl, sym, ap, subst, ◌∙◌, List, [], ◌∷◌, String, str_eq,
  Bool-cases, inl, inr, arith, eq_iff,
}
use plaiflowapp.Sql.Runs
use plaiflowapp.Sql.Runs.{perform_commit}
use plaiflowapp.Sql.{commit, rollback, is_committed, is_committed-eq}
use plaiflowapp.Auth.{Session, SessionRecord, Store, no_session}
use plaiflowapp.Auth.Sessions.{resolve_session}
use plaiflowapp.Auth.Ops.{
  Op, starting, consuming, logging_in, creating, resolving, revoking, revoking_user, linking,
  reauthenticating, unlinking, exec, perform, run,
}
use plaiflowapp.Auth.Vault.{
  Grant, Entry, unused, spent, active, is_of, has_id, end_entry, end_where, issue, rotate, spec,
  Allowed, view, Later, Vault,
}
use plaiflowapp.Auth.Writing.{exec-spec}
use plaiflowapp.Auth.Runs.{UniqueTokens, run-UniqueTokens, run-Later}
use plaiflowapp.Auth.Resolving.{resolve_session-view, refused_unless}

-- The operations that end a session `x`: revoking it or its user's sessions, and a rotation of it
-- that commits, or an unlinking of its user's identity that does.
unfoldable pub Ends : Session → Op → Store → Type 0
Ends x (revoking id now) s = id ≡ x.id
Ends x (revoking_user u now) s = u ≡ x.user_id
Ends x (linking q) s = (q.session_id ≡ x.id) × (is_committed (exec (linking q) s) ≡ true)
Ends x (reauthenticating q) s =
    (q.session_id ≡ x.id) × (is_committed (exec (reauthenticating q) s) ≡ true)
Ends x (unlinking q) s = (q.user_id ≡ x.user_id) × (is_committed (exec (unlinking q) s) ≡ true)
Ends x _ s = ⊥

-- An entry that holds the session's grant ends with each of those operations.
spent_entry :
    (p : Grant → Bool) (g : Grant) (e : Entry)
    → p g ≡ true
    → Later (active g) e
    → end_entry p e ≡ spent
unfolding Later
spent_entry p g e hit (inl is) = rw is (rw hit refl)
spent_entry p g e hit (inr is) = rw is refl

not_reissued :
    (r : SessionRecord) (v w : Vault) (g : Grant) (h : String)
    → v r.token_hash ≡ unused
    → Later (active g) (v h)
    → w h ≡ spent
    → issue r w h ≡ spent
unfolding Later
not_reissued r v w g h free k is = elim (Bool-cases (str_eq r.token_hash h)) [
  | inr other ↦ rw other is
  | inl same ↦
      let e : v h ≡ unused = rw (← (eq_iff r.token_hash h).0 same) free in
      let k' : Later (active g) unused = rw e at k in elim k' [ inl x ↦ cc | inr x ↦ cc ]
]

performed :
    (h : String) (op : Op) (s s' : Store)
    → exec op s ≡ commit s'
    → (Allowed op (view s) → spec op (view s) h ≡ spent)
    → view (perform op s) h ≡ spent
performed h op s s' done ends =
    let (may, same) = exec-spec op s s' done in
    ap (λ (t : Store). view t h) (perform_commit exec op s s' done)
    ∙ ap (λ (v : Vault). v h) same
    ∙ ends may

rotated_away :
    (old : String) (r : SessionRecord) (x : Session) (g : Grant) (h : String) (s : Store)
    → g.id ≡ x.id
    → Later (active g) (view s h)
    → old ≡ x.id
    → view s r.token_hash ≡ unused
    → rotate old r (view s) h ≡ spent
rotated_away old r x g h s same_id k e may =
    not_reissued r (view s) (end_where (has_id old) (view s)) g h may k
      (spent_entry (has_id old) g (view s h) ((eq_iff g.id old).1 (same_id ∙ sym e)) k)

-- The transaction that ends a session leaves its token spent.
ended_view :
    (x : Session) (g : Grant) (h : String) (op : Op) (s : Store)
    → g.id ≡ x.id
    → g.user_id ≡ x.user_id
    → Later (active g) (view s h)
    → Ends x op s
    → view (perform op s) h ≡ spent
unfolding Ends spec exec Allowed
ended_view x g h (revoking id now) s same_id same_user k e =
    performed h (revoking id now) s _ refl
      λ may. spent_entry (has_id id) g (view s h) ((eq_iff g.id id).1 (same_id ∙ sym e)) k
ended_view x g h (revoking_user u now) s same_id same_user k e =
    performed h (revoking_user u now) s _ refl
      λ may. spent_entry (is_of u) g (view s h) ((eq_iff g.user_id u).1 (same_user ∙ sym e)) k
ended_view x g h (linking q) s same_id same_user k (e, c) =
    let (s', done) = is_committed-eq (exec (linking q) s) c in
    performed h (linking q) s s' done
      λ may. rotated_away q.session_id q.new_session x g h s same_id k e may
ended_view x g h (reauthenticating q) s same_id same_user k (e, c) =
    let (s', done) = is_committed-eq (exec (reauthenticating q) s) c in
    performed h (reauthenticating q) s s' done
      λ may. rotated_away q.session_id q.new_session x g h s same_id k e may
ended_view x g h (unlinking q) s same_id same_user k (e, c) =
    let (s', done) = is_committed-eq (exec (unlinking q) s) c in
    performed h (unlinking q) s s' done λ may.
      not_reissued q.new_session (view s) (end_where (is_of q.user_id) (view s)) g h may k (
        spent_entry (is_of q.user_id) g (view s h)
          ((eq_iff g.user_id q.user_id).1 (same_user ∙ sym e)) k)
ended_view x g h (starting t) s same_id same_user k e = absurd e
ended_view x g h (consuming y now) s same_id same_user k e = absurd e
ended_view x g h (logging_in y u i now seen) s same_id same_user k e = absurd e
ended_view x g h (creating r) s same_id same_user k e = absurd e
ended_view x g h (resolving y now) s same_id same_user k e = absurd e

resolved-UniqueTokens :
    (h : String) (then : ℕ) (s s₁ : Store) (x : Session)
    → UniqueTokens s.sessions
    → resolve_session h then s ≡ commit (x, s₁)
    → UniqueTokens s₁.sessions
unfolding exec Runs.run
resolved-UniqueTokens h then s s₁ x u e =
    subst (λ (t : Store). UniqueTokens t.sessions)
      (perform_commit exec (resolving h then) s s₁ (rw (exec, e) refl))
      (run-UniqueTokens (resolving h then ∷ []) s u)

-- Where the hashes of tokens are unique: if a token has resolved to a session, and after any
-- transactions the session is revoked, its user's sessions are, it is rotated by a link or a
-- reauthentication that commits, or its user's identity is unlinked, then after any further
-- transactions and at any time the token is refused with ErrSession.
pub ended_for_good :
    (h : String) (then now : ℕ) (s s₁ : Store) (x : Session) (before : List Op) (op : Op)
    (ops : List Op)
    → UniqueTokens s.sessions
    → resolve_session h then s ≡ commit (x, s₁)
    → Ends x op (run before s₁)
    → resolve_session h now (run ops (perform op (run before s₁))) ≡ rollback no_session
unfolding Later Runs.run
ended_for_good h then now s s₁ x before op ops u e ends =
    let (g, here, same_id, same_user, same_end, late, after) =
      resolve_session-view h then s s₁ x u e in
    let k : Later (active g) (view (run before s₁) h) =
      subst (λ y. Later y (view (run before s₁) h)) after (run-Later h before s₁) in
    let last = run ops (perform op (run before s₁)) in
    let at_end = ended_view x g h op (run before s₁) same_id same_user k ends in
    let kept : view last h ≡ spent =
      subst (λ y. Later y (view last h)) at_end (run-Later h ops (perform op (run before s₁))) in
    let u₁ = resolved-UniqueTokens h then s s₁ x u e in
    let u₂ = run-UniqueTokens before s₁ u₁ in
    let u₃ = run-UniqueTokens (op ∷ []) (run before s₁) u₂ in
    refused_unless h now last (run-UniqueTokens ops (perform op (run before s₁)) u₃)
      λ d active_d late_d. let no : spent ≡ active d = sym kept ∙ active_d in cc

-- Where the hashes of tokens are unique: after any transactions, a token that has resolved is
-- refused with ErrSession from the session's absolute expiry on, which no transaction moves.
pub expired_for_good :
    (h : String) (then now : ℕ) (s s₁ : Store) (x : Session) (ops : List Op)
    → UniqueTokens s.sessions
    → resolve_session h then s ≡ commit (x, s₁)
    → x.absolute_expires_at ≤ now
    → (then < x.absolute_expires_at) × (resolve_session h now (run ops s₁) ≡ rollback no_session)
unfolding Later
expired_for_good h then now s s₁ x ops u e old =
    let (g, here, same_id, same_user, same_end, late, after) =
      resolve_session-view h then s s₁ x u e in
    let k : Later (active g) (view (run ops s₁) h) =
      subst (λ y. Later y (view (run ops s₁) h)) after (run-Later h ops s₁) in
    (
      late,
      refused_unless h now (run ops s₁)
          (run-UniqueTokens ops s₁ (resolved-UniqueTokens h then s s₁ x u e))
          λ d active_d late_d. elim k [
            | inl is ↦
                let both : active g ≡ active d = sym is ∙ active_d in
                let same : g.absolute_expires_at ≡ d.absolute_expires_at = cc in
                omega (arith, old, late_d, same, same_end)
            | inr is ↦ let clash : spent ≡ active d = sym is ∙ active_d in cc
          ],
    )
