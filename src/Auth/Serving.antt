-- ===== src/Auth/Serving.antt =====
-- The routes of `NewService` of api/internal/auth/service.go that write.
use plaiflowapp.Base.{ℕ, List, [], ◌∷◌, none}
use plaiflowapp.Auth.{to_login, to_link, to_reauth, Store}
use plaiflowapp.Auth.Service.{Service, Draws, Request, Reply}
use plaiflowapp.Auth.Callback.{
  begin_authorization, start_protected, callback, logout, logout_all, unlink,
}

pub data Route : Type 0 where
  get_start post_link post_reauth post_unlink get_callback post_logout post_logout_all : Route

unfoldable pub serve : Service → Route → Draws → Request → (ℕ → ℕ) → Store → Reply × Store
serve svc get_start d r now s = begin_authorization svc d r to_login none (now 0) s
serve svc post_link d r now s = start_protected svc d r to_link now s
serve svc post_reauth d r now s = start_protected svc d r to_reauth now s
serve svc post_unlink d r now s = unlink svc d r now s
serve svc get_callback d r now s = callback svc d r now s
serve svc post_logout d r now s = logout svc r now s
serve svc post_logout_all d r now s = logout_all svc r now s

-- A request, with the values that are drawn for it and its readings of the clock.
pub record Call : Type 0 where
  pub route : Route
  pub draws : Draws
  pub request : Request
  pub now : ℕ → ℕ

unfoldable pub serve_all : Service → List Call → Store → Store
serve_all svc [] s = s
serve_all svc (c ∷ calls) s = serve_all svc calls (serve svc c.route c.draws c.request c.now s).1
