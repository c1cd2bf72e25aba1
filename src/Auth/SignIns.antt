-- ===== src/Auth/SignIns.antt =====
-- The steps of the handlers of api/internal/auth/service.go that authenticate and sign in.
use plaiflowapp.Base.{ℕ, ◌≡◌, refl, Option, some, Bool-cases, Option-cases, inl, inr}
use plaiflowapp.Sql.{Tx, commit, rollback}
use plaiflowapp.Auth.{
  Error, Purpose, to_login, to_link, to_reauth, other_purpose, ExternalIdentity, Transaction,
  Session, Store, is_empty, create_auth_transaction, no_session,
}
use plaiflowapp.Auth.Sessions.{insert_session, resolve_session}
use plaiflowapp.Auth.Accounts.{login, link_identity_and_rotate, reauthenticate_and_rotate}
use plaiflowapp.Auth.Ops.{
  starting, logging_in, creating, resolving, linking, reauthenticating, exec,
}
use plaiflowapp.Auth.Paths.{safe_return_path}
use plaiflowapp.Auth.Service.{
  Service, Draws, Request, provider_at, authenticate, valid_mutation, Credentials,
  new_session_credentials, new_attempt,
}
use plaiflowapp.Auth.Callback.{
  transaction_of, begin_authorization, protected_session, start_protected, sign_in_new,
  sign_in_again, sign_in,
}
use plaiflowapp.Auth.Reaching.{
  Reaches, Reaches-refl, Reaches-exec, LeadsTo, LeadsTo-bind, LeadsTo-commit, LeadsTo-rollback,
  LeadsTo-guard, LeadsTo-or_return, LeadsTo-or_answer, of_page, of_reply,
}

pub authenticate-Reaches :
    (svc : Service) (r : Request) (now : ℕ) (s : Store) (x : Session × Store)
    → authenticate svc r now s ≡ commit x
    → Reaches s x.1
unfolding authenticate exec
authenticate-Reaches svc r now s x h = elim (Option-cases r.session_cookie) [
  | inl e ↦
      let h' : ◌≡◌ {A = Tx Error (Session × Store)} (rollback no_session) (commit x) =
        rw (authenticate, e) at h in
      cc
  | inr (c, e) ↦ elim (Bool-cases (is_empty c)) [
    | inl blank ↦
        let h' : ◌≡◌ {A = Tx Error (Session × Store)} (rollback no_session) (commit x) =
          rw (authenticate, e, blank) at h in
        cc
    | inr full ↦
        let h' : resolve_session (svc.hash c) now s ≡ commit x = rw (authenticate, e, full) at h in
        Reaches-exec (resolving (svc.hash c) now) s x.1 (rw (exec, h') refl)
  ]
]

pub protected_session-LeadsTo :
    (svc : Service) (r : Request) (now : ℕ) (s : Store)
    → LeadsTo (λ x. x.1) s (protected_session svc r now s)
unfolding protected_session
protected_session-LeadsTo svc r now s =
    LeadsTo-bind (λ x. x.1) (λ x. x.1) s _ _
      (LeadsTo-or_answer s (λ x. x.1) (authenticate svc r now s) _
        (λ x e. authenticate-Reaches svc r now s x e))
      λ x.
        LeadsTo-bind (λ u. x.1) (λ y. y.1) x.1 _ _ (LeadsTo-guard x.1 (valid_mutation svc r x.0) _)
          λ u. LeadsTo-commit _ (λ y. y.1) x.1 x (Reaches-refl x.1)

pub begin_authorization-Reaches :
    (svc : Service) (d : Draws) (r : Request) (purpose : Purpose) (x : Option Session) (now : ℕ)
    (s : Store)
    → Reaches s (begin_authorization svc d r purpose x now s).1
unfolding begin_authorization exec
begin_authorization-Reaches svc d r purpose x now s = of_page s _ (
    LeadsTo-bind (λ p. s) (λ y. y.1) s _ _
      (LeadsTo-or_return s (provider_at r.provider svc.providers) _)
      λ p.
        LeadsTo-bind (λ p. s) (λ y. y.1) s _ _
          (LeadsTo-or_return s (safe_return_path svc.parse_url r.return_to) _)
          λ path.
            LeadsTo-bind (λ p. s) (λ y. y.1) s _ _ (LeadsTo-or_return s (new_attempt svc d) _)
              λ a.
                LeadsTo-bind (λ p. s) (λ y. y.1) s _ _ (LeadsTo-or_return s d.browser _)
                  λ browser.
                    let t = transaction_of svc p a browser purpose path x now in
                    LeadsTo-bind (λ s'. s') (λ y. y.1) s _ _
                      (LeadsTo-or_answer s (λ s'. s') (create_auth_transaction t s) _
                        (λ s' e. Reaches-exec (starting t) s s' e))
                      λ s'.
                        LeadsTo-bind (λ p. s') (λ y. y.1) s' _ _
                          (LeadsTo-or_return s' (p.authorization_url a) _)
                          λ url. LeadsTo-commit _ (λ y. y.1) s' _ (Reaches-refl s'))

pub start_protected-Reaches :
    (svc : Service) (d : Draws) (r : Request) (purpose : Purpose) (now : ℕ → ℕ) (s : Store)
    → Reaches s (start_protected svc d r purpose now s).1
unfolding start_protected
start_protected-Reaches svc d r purpose now s = of_reply s _ (
    LeadsTo-bind (λ x. x.1) (λ y. y.1) s _ _ (protected_session-LeadsTo svc r (now 0) s)
      λ x.
        LeadsTo-bind (λ u. x.1) (λ y. y.1) x.1 _ _ (LeadsTo-guard x.1 _ _)
          λ u.
            LeadsTo-commit _ (λ y. y.1) x.1 _
              (begin_authorization-Reaches svc d r purpose (some x.0) (now 2) x.1))

pub sign_in_new-LeadsTo :
    (svc : Service) (d : Draws) (e : ExternalIdentity) (now : ℕ) (s : Store)
    → LeadsTo (λ y. y.1) s (sign_in_new svc d e now s)
unfolding sign_in_new exec
sign_in_new-LeadsTo svc d e now s =
    LeadsTo-bind (λ x. x.1) (λ y. y.1) s _ _
      (LeadsTo-or_answer s (λ x. x.1) (login e d.user_id d.identity_id now s s) _
        (λ x h.
          Reaches-exec (logging_in e d.user_id d.identity_id now s) s x.1 (rw (exec, h) refl)))
      λ x.
        LeadsTo-bind (λ c. x.1) (λ y. y.1) x.1 _ _
          (LeadsTo-or_return x.1 (new_session_credentials svc d x.0.user_id e.provider now) _)
          λ c.
            LeadsTo-bind (λ s'. s') (λ y. y.1) x.1 _ _
              (LeadsTo-or_answer x.1 (λ s'. s') (insert_session c.session x.1) _
                (λ s' h. Reaches-exec (creating c.session) x.1 s' h))
              λ s'. LeadsTo-commit _ (λ y. y.1) s' _ (Reaches-refl s')

pub sign_in_again-LeadsTo :
    (svc : Service) (d : Draws) (r : Request) (t : Transaction) (e : ExternalIdentity) (now : ℕ → ℕ)
    (s : Store)
    → LeadsTo (λ y. y.1) s (sign_in_again svc d r t e now s)
unfolding sign_in_again exec
sign_in_again-LeadsTo svc d r t e now s =
    LeadsTo-bind (λ x. x.1) (λ y. y.1) s _ _
      (LeadsTo-or_answer s (λ x. x.1) (authenticate svc r (now 2) s) _
        (λ x h. authenticate-Reaches svc r (now 2) s x h))
      λ x.
        LeadsTo-bind (λ u. x.1) (λ y. y.1) x.1 _ _ (LeadsTo-guard x.1 _ _)
          λ u.
            LeadsTo-bind (λ c. x.1) (λ y. y.1) x.1 _ _
              (LeadsTo-or_return x.1 (new_session_credentials svc d x.0.user_id e.provider (now 1))
                _)
              λ c.
                LeadsTo-bind (λ s'. s') (λ y. y.1) x.1 _ _
                  (LeadsTo-or_answer x.1 (λ s'. s') _ _ (λ s' h. rotated x.0 c x.1 s' t.purpose h))
                  λ s'. LeadsTo-commit _ (λ y. y.1) s' _ (Reaches-refl s')
  where
    rotated :
        (x : Session) (c : Credentials) (s₁ s' : Store) (purpose : Purpose)
        → elim purpose [
          | to_link ↦
              link_identity_and_rotate
                (record {
                  user_id = x.user_id;
                  session_id = x.id;
                  identity = e;
                  new_session = c.session;
                  now = now 1;
                })
                s₁
          | _ ↦
              reauthenticate_and_rotate
                (record {
                  user_id = x.user_id;
                  session_id = x.id;
                  identity = e;
                  new_session = c.session;
                  now = now 1;
                })
                s₁
        ]
          ≡ commit s'
        → Reaches s₁ s'
    rotated x c s₁ s' to_link h = Reaches-exec (linking _) s₁ s' h
    rotated x c s₁ s' to_login h = Reaches-exec (reauthenticating _) s₁ s' h
    rotated x c s₁ s' to_reauth h = Reaches-exec (reauthenticating _) s₁ s' h
    rotated x c s₁ s' (other_purpose p) h = Reaches-exec (reauthenticating _) s₁ s' h

pub sign_in-LeadsTo :
    (svc : Service) (d : Draws) (r : Request) (t : Transaction) (e : ExternalIdentity) (now : ℕ → ℕ)
    (s : Store)
    → LeadsTo (λ y. y.1) s (sign_in svc d r t e now s)
unfolding sign_in
sign_in-LeadsTo svc d r t e now s = by_purpose t.purpose
  where
    by_purpose :
        (p : Purpose)
        → LeadsTo
            (λ y. y.1)
            s
            (elim p [
              | to_login ↦ sign_in_new svc d e (now 1) s
              | to_link ↦ sign_in_again svc d r t e now s
              | to_reauth ↦ sign_in_again svc d r t e now s
              | other_purpose p ↦ rollback ("identity_conflict", s)
            ])
    by_purpose to_login = sign_in_new-LeadsTo svc d e (now 1) s
    by_purpose to_link = sign_in_again-LeadsTo svc d r t e now s
    by_purpose to_reauth = sign_in_again-LeadsTo svc d r t e now s
    by_purpose (other_purpose p) = LeadsTo-rollback (λ y. y.1) s "identity_conflict"
