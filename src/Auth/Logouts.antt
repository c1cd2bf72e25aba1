-- ===== src/Auth/Logouts.antt =====
-- `logout` and `logoutAll` of api/internal/auth/service.go: the session that asked is over.
use plaiflowapp.Base.{
  ℕ, Bool, true, false, ◌≡◌, refl, sym, subst, List, [], some, String, Bool-cases, Option-cases,
  inl, inr, if◌then◌else◌,
}
use plaiflowapp.Sql.Runs
use plaiflowapp.Sql.{Tx, commit, rollback, ◌>>=◌, ◌>>◌, guard}
use plaiflowapp.Auth.{Error, Session, Store, is_empty, no_session}
use plaiflowapp.Auth.Sessions.{resolve_session}
use plaiflowapp.Auth.Ops.{Op, revoking, revoking_user, exec, run}
use plaiflowapp.Auth.Service.{
  Service, Request, forbidden, unauthorized, no_content, Reply, or_answer, authenticate,
  valid_mutation,
}
use plaiflowapp.Auth.Callback.{Early, or_reply, protected_session, logout, logout_all, signed_out}
use plaiflowapp.Auth.Runs.{UniqueTokens}
use plaiflowapp.Auth.Ended.{Ends, ended_for_good}

authenticate_lem :
    (svc : Service) (r : Request) (now : ℕ) (s : Store) (x : Session × Store)
    → authenticate svc r now s ≡ commit x
    → (token : String) × (r.session_cookie ≡ some token)
      × (resolve_session (svc.hash token) now s ≡ commit x)
unfolding authenticate
authenticate_lem svc r now s x h = elim (Option-cases r.session_cookie) [
  | inl e ↦
      let h' : ◌≡◌ {A = Tx Error (Session × Store)} (rollback no_session) (commit x) =
        rw (authenticate, e) at h in
      cc
  | inr (c, e) ↦ elim (Bool-cases (is_empty c)) [
    | inl blank ↦
        let h' : ◌≡◌ {A = Tx Error (Session × Store)} (rollback no_session) (commit x) =
          rw (authenticate, e, blank) at h in
        cc
    | inr full ↦ (c, e, rw (authenticate, e, full) at h)
  ]
]

abbrev finish :
    Service
    → Request
    → Store
    → Tx Error (Session × Store)
    → (Session × Store → Store)
    → Tx Early (Reply × Store)
finish svc r s o f = do
  x ← do
    y ← or_answer o (λ e. (unauthorized "unauthorized", s))
    guard (valid_mutation svc r y.0) (forbidden "csrf_rejected", y.1)
    commit y
  commit (signed_out, f x)

-- A handler that answers with no content has authenticated its session and checked the mutation.
passed :
    (svc : Service) (r : Request) (s : Store) (o : Tx Error (Session × Store))
    (f : Session × Store → Store)
    → (or_reply (finish svc r s o f)).0.answer ≡ no_content
    → (x : Session × Store) × (o ≡ commit x)
      × (valid_mutation svc r x.0 ≡ true)
      × ((or_reply (finish svc r s o f)).1 ≡ f x)
passed svc r s (rollback e) f h = let h' : unauthorized "unauthorized" ≡ no_content = h in cc
passed svc r s (commit x) f h = elim (Bool-cases (valid_mutation svc r x.0)) [
  | inl may ↦ (x, refl, may, rw may refl)
  | inr bad ↦ let h' : forbidden "csrf_rejected" ≡ no_content = rw bad at h in cc
]

-- A logout, or a logout of all sessions, that answers with no content was asked for by a session
-- that its cookie's token resolves to, with the CSRF token of that session and from the web origin;
-- where the hashes of tokens are unique, that token is refused with ErrSession from then on, after
-- any further transactions and at any time.
pub logout_for_good :
    (svc : Service) (r : Request) (now : ℕ → ℕ) (s : Store) (everywhere : Bool) (ops : List Op)
    (later : ℕ)
    → UniqueTokens s.sessions
    → (if everywhere then logout_all svc r now s else logout svc r now s).0.answer ≡ no_content
    → (token : String) × (x : Session) × (s₁ : Store) × (r.session_cookie ≡ some token)
      × (resolve_session (svc.hash token) (now 0) s ≡ commit (x, s₁))
      × (valid_mutation svc r x ≡ true)
      × (resolve_session
            (svc.hash token)
            later
            (run ops (if everywhere then logout_all svc r now s else logout svc r now s).1)
          ≡ rollback no_session)
unfolding logout logout_all protected_session Runs.perform exec Runs.run Ends
logout_for_good svc r now s true ops later u h =
    let (x, is, may, at) = passed svc r s (authenticate svc r (now 0) s) _ h in
    let (token, cookie, resolved) = authenticate_lem svc r (now 0) s x is in
    (
      token,
      x.0,
      x.1,
      cookie,
      resolved,
      may,
      subst (λ y. resolve_session (svc.hash token) later (run ops y) ≡ rollback no_session) (sym at)
          (ended_for_good (svc.hash token) (now 0) later s x.1 x.0 []
            (revoking_user x.0.user_id (now 1)) ops u resolved refl),
    )
logout_for_good svc r now s false ops later u h =
    let (x, is, may, at) = passed svc r s (authenticate svc r (now 0) s) _ h in
    let (token, cookie, resolved) = authenticate_lem svc r (now 0) s x is in
    (
      token,
      x.0,
      x.1,
      cookie,
      resolved,
      may,
      subst (λ y. resolve_session (svc.hash token) later (run ops y) ≡ rollback no_session) (sym at)
          (ended_for_good (svc.hash token) (now 0) later s x.1 x.0 [] (revoking x.0.id (now 1)) ops
            u resolved refl),
    )
