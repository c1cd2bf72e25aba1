-- ===== src/Auth/Enrolled.antt =====
-- Every request of api/internal/auth/service.go is a sequence of the store's transactions, and so
-- keeps what they keep.
use plaiflowapp.Base.{ℕ, ◌≡◌, refl, subst, List, [], ◌∷◌, none}
use plaiflowapp.Sql.{Tx, commit, rollback}
use plaiflowapp.Auth.{Error, Store, to_login, to_link, to_reauth, consume_auth_transaction}
use plaiflowapp.Auth.Ops.{revoking, revoking_user, unlinking, consuming, exec}
use plaiflowapp.Auth.Service.{Service, Draws, Request, new_session_credentials}
use plaiflowapp.Auth.Callback.{callback, callback_steps, logout, logout_all, unlink}
use plaiflowapp.Auth.Reaching.{
  Reaches, Reaches-refl, Reaches-trans, Reaches-exec, LeadsTo-bind, LeadsTo-commit, LeadsTo-guard,
  LeadsTo-or_return, LeadsTo-or_answer, of_reply,
}
use plaiflowapp.Auth.SignIns.{
  protected_session-LeadsTo, begin_authorization-Reaches, start_protected-Reaches,
}
use plaiflowapp.Auth.Handlers.{callback-LeadsTo}
use plaiflowapp.Auth.Identities.{AllEnrolled, all_enrolled}
use plaiflowapp.Auth.Serving.{
  Route, get_start, post_link, post_reauth, post_unlink, get_callback, post_logout, post_logout_all,
  serve, Call, serve_all,
}

callback-Reaches :
    (svc : Service) (d : Draws) (r : Request) (now : ℕ → ℕ) (s : Store)
    → Reaches s (callback svc d r now s).1
unfolding exec callback callback_steps
callback-Reaches svc d r now s =
    outcome (consume_auth_transaction (svc.hash r.state) (now 0) s) refl
  where
    outcome :
        (o : Tx Error _)
        → consume_auth_transaction (svc.hash r.state) (now 0) s ≡ o
        → Reaches s (callback svc d r now s).1
    outcome (commit (t, s₁)) e =
        Reaches-trans s s₁ (callback svc d r now s).1
          (Reaches-exec (consuming (svc.hash r.state) (now 0)) s s₁ (rw (exec, e) refl))
          (callback-LeadsTo svc d r now s s₁ t e)
    outcome (rollback why) e = rw (callback, callback_steps, e) (Reaches-refl s)

logout-Reaches :
    (svc : Service) (r : Request) (now : ℕ → ℕ) (s : Store) → Reaches s (logout svc r now s).1
unfolding logout exec
logout-Reaches svc r now s = of_reply s _ (
    LeadsTo-bind (λ x. x.1) (λ y. y.1) s _ _ (protected_session-LeadsTo svc r (now 0) s)
      λ x. LeadsTo-commit _ (λ y. y.1) x.1 _ (Reaches-exec (revoking x.0.id (now 1)) x.1 _ refl))

logout_all-Reaches :
    (svc : Service) (r : Request) (now : ℕ → ℕ) (s : Store) → Reaches s (logout_all svc r now s).1
unfolding logout_all exec
logout_all-Reaches svc r now s = of_reply s _ (
    LeadsTo-bind (λ x. x.1) (λ y. y.1) s _ _ (protected_session-LeadsTo svc r (now 0) s)
      λ x.
        LeadsTo-commit _ (λ y. y.1) x.1 _
          (Reaches-exec (revoking_user x.0.user_id (now 1)) x.1 _ refl))

unlink-Reaches :
    (svc : Service) (d : Draws) (r : Request) (now : ℕ → ℕ) (s : Store)
    → Reaches s (unlink svc d r now s).1
unfolding unlink exec
unlink-Reaches svc d r now s = of_reply s _ (
    LeadsTo-bind (λ x. x.1) (λ y. y.1) s _ _ (protected_session-LeadsTo svc r (now 0) s)
      λ x.
        LeadsTo-bind (λ u. x.1) (λ y. y.1) x.1 _ _ (LeadsTo-guard x.1 _ _)
          λ u.
            LeadsTo-bind (λ c. x.1) (λ y. y.1) x.1 _ _
              (LeadsTo-or_return x.1
                (new_session_credentials svc d x.0.user_id x.0.authenticated_provider (now 1)) _)
              λ c.
                LeadsTo-bind (λ s'. s') (λ y. y.1) x.1 _ _
                  (LeadsTo-or_answer x.1 (λ s'. s') _ _
                    (λ s' e. Reaches-exec (unlinking _) x.1 s' e))
                  λ s'. LeadsTo-commit _ (λ y. y.1) s' _ (Reaches-refl s'))

serve-Reaches :
    (svc : Service) (route : Route) (d : Draws) (r : Request) (now : ℕ → ℕ) (s : Store)
    → Reaches s (serve svc route d r now s).1
unfolding serve
serve-Reaches svc get_start d r now s = begin_authorization-Reaches svc d r to_login none (now 0) s
serve-Reaches svc post_link d r now s = start_protected-Reaches svc d r to_link now s
serve-Reaches svc post_reauth d r now s = start_protected-Reaches svc d r to_reauth now s
serve-Reaches svc post_unlink d r now s = unlink-Reaches svc d r now s
serve-Reaches svc get_callback d r now s = callback-Reaches svc d r now s
serve-Reaches svc post_logout d r now s = logout-Reaches svc r now s
serve-Reaches svc post_logout_all d r now s = logout_all-Reaches svc r now s

serve_all-Reaches :
    (svc : Service) (calls : List Call) (s : Store) → Reaches s (serve_all svc calls s)
unfolding serve_all
serve_all-Reaches svc [] s = Reaches-refl s
serve_all-Reaches svc (c ∷ calls) s =
    let s' = (serve svc c.route c.draws c.request c.now s).1 in
    Reaches-trans s s' (serve_all svc calls s')
      (serve-Reaches svc c.route c.draws c.request c.now s) (serve_all-Reaches svc calls s')

-- If every user has an enabled identity, every user, those who sign in for the first time included,
-- has one after any sequence of requests on the routes that write.
pub requests_enrolled :
    (svc : Service) (calls : List Call) (s : Store)
    → AllEnrolled s.users s.identities
    → AllEnrolled (serve_all svc calls s).users (serve_all svc calls s).identities
requests_enrolled svc calls s h =
    let (ops, e) = serve_all-Reaches svc calls s in
    subst (λ (y : Store). AllEnrolled y.users y.identities) e (all_enrolled ops s h)
