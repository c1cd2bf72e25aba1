-- ===== src/Auth/Handlers.antt =====
-- Every request of api/internal/auth/service.go is a sequence of the store's transactions.
use plaiflowapp.Base.{ℕ, not, ◌&&◌, ◌≡◌, str_eq}
use plaiflowapp.Sql.{commit}
use plaiflowapp.Auth.{Transaction, Store, is_empty, consume_auth_transaction}
use plaiflowapp.Auth.Service.{Service, Draws, Request, provider_at}
use plaiflowapp.Auth.Callback.{identify, callback_steps, callback, is_expected}
use plaiflowapp.Auth.Reaching.{
  Reaches, Reaches-refl, LeadsTo, LeadsTo-bind, LeadsTo-commit, LeadsTo-guard, LeadsTo-or_return,
  of_page,
}
use plaiflowapp.Auth.SignIns.{sign_in-LeadsTo}

identify-LeadsTo :
    (svc : Service) (r : Request) (t : Transaction) (s : Store)
    → LeadsTo (λ e. s) s (identify svc r t s)
unfolding identify
identify-LeadsTo svc r t s =
    LeadsTo-bind (λ u. s) (λ e. s) s _ _
      (LeadsTo-guard s (not (is_empty r.state)) "expired_attempt")
      λ u.
        LeadsTo-bind (λ p. s) (λ e. s) s _ _
          (LeadsTo-or_return s (provider_at r.provider svc.providers) "identity_conflict")
          λ p.
            LeadsTo-bind (λ u. s) (λ e. s) s _ _
              (LeadsTo-guard s (str_eq t.provider p.name && str_eq t.issuer p.issuer)
                "identity_conflict")
              λ u.
                LeadsTo-bind (λ b. s) (λ e. s) s _ _
                  (LeadsTo-or_return s r.oauth_cookie "expired_attempt")
                  λ b.
                    LeadsTo-bind (λ u. s) (λ e. s) s _ _
                      (LeadsTo-guard s (str_eq (svc.hash b) t.browser_hash) "expired_attempt")
                      λ u.
                        LeadsTo-bind (λ u. s) (λ e. s) s _ _
                          (LeadsTo-guard s (is_empty r.error) "access_denied")
                          λ u.
                            LeadsTo-bind (λ e. s) (λ e. s) s _ _
                              (LeadsTo-or_return s (p.exchange r.code t.code_verifier t.nonce)
                                "provider_unavailable")
                              λ e.
                                LeadsTo-bind (λ u. s) (λ e. s) s _ _
                                  (LeadsTo-guard s (is_expected p e) "provider_unavailable")
                                  λ u. LeadsTo-commit _ (λ e. s) s e (Reaches-refl s)

-- After the attempt is consumed.
pub callback-LeadsTo :
    (svc : Service) (d : Draws) (r : Request) (now : ℕ → ℕ) (s s₁ : Store) (t : Transaction)
    → consume_auth_transaction (svc.hash r.state) (now 0) s ≡ commit (t, s₁)
    → Reaches s₁ (callback svc d r now s).1
unfolding callback callback_steps
callback-LeadsTo svc d r now s s₁ t h =
    rw (callback, callback_steps, h)
      (of_page s₁ _ (
        LeadsTo-bind (λ e. s₁) (λ y. y.1) s₁ _ _ (identify-LeadsTo svc r t s₁)
          λ e.
            LeadsTo-bind (λ y. y.1) (λ y. y.1) s₁ _ _ (sign_in-LeadsTo svc d r t e now s₁)
              λ y. LeadsTo-commit _ (λ x. x.1) y.1 _ (Reaches-refl y.1)))
