-- ===== src/Auth/Requests.antt =====
-- What the replies of api/internal/auth/service.go tell: a callback that signs in, a callback that
-- comes again, and a logout.
use plaiflowapp.Base.{
  ℕ, ◌≤◌, Bool, true, false, not, ◌&&◌, ◌≡◌, refl, sym, ap, subst, ◌∙◌, List, [], ◌∷◌, ◌++◌, Option,
  none, some, String, str_eq, eq_iff, arith,
}
use plaiflowapp.Sql.{
  Tx, commit, rollback, guard_passed, bind_passed, commit_injective, rows_affected,
}
use plaiflowapp.Auth.{
  Error, ExternalIdentity, Transaction, Store, is_empty, has_state, consume_auth_transaction,
  no_attempt,
}
use plaiflowapp.Auth.Ops.{Op, run}
use plaiflowapp.Auth.Service.{
  Provider, Service, Draws, Request, redirect, error_page, Cookie, cleared, Reply,
  oauth_cookie_name, provider_at, or_return, or_answer, Refusal, or_error_page,
}
use plaiflowapp.Auth.Callback.{sign_in, identify, callback, callback_steps, is_expected}
use plaiflowapp.Auth.Reaching.{run-append}
use plaiflowapp.Auth.Attempts.{consumed_once}
use plaiflowapp.Auth.Opened.{WasOpen, consumed-WasOpen}
use plaiflowapp.Auth.Handlers.{callback-LeadsTo}

or_return_passed :
    {A E : Type 0} (o : Option A) (e : E) {a : A} → or_return o e ≡ commit a → o ≡ some a
or_return_passed none e h = cc
or_return_passed (some a) e h = ap some (commit_injective h)

or_answer_passed :
    {A E : Type 0} (m : Tx Error A) (f : Error → E) {a : A}
    → or_answer m f ≡ commit a
    → m ≡ commit a
or_answer_passed (commit a) f h = ap commit (commit_injective h)
or_answer_passed (rollback e) f h = cc

-- What a callback has checked before it signs in.
pub record IsExpected (svc : Service) (r : Request) (t : Transaction) (e : ExternalIdentity)
    (p : Provider) (browser : String) : Type 0 where
  pub brings_state : is_empty r.state ≡ false
  pub configured : provider_at r.provider svc.providers ≡ some p
  pub of_provider : t.provider ≡ p.name
  pub of_issuer : t.issuer ≡ p.issuer
  pub brings : r.oauth_cookie ≡ some browser
  pub same_browser : svc.hash browser ≡ t.browser_hash
  pub no_error : is_empty r.error ≡ true
  pub exchanged : p.exchange r.code t.code_verifier t.nonce ≡ some e
  pub from_provider : e.provider ≡ p.name
  pub from_issuer : e.issuer ≡ p.issuer
  pub has_subject : is_empty e.subject ≡ false

both : (a b : Bool) → (a && b) ≡ true → (a ≡ true) × (b ≡ true)
both a b h = (ground arith, ground arith)

expected_lem :
    (p : Provider) (e : ExternalIdentity)
    → is_expected p e ≡ true
    → (e.provider ≡ p.name) × (e.issuer ≡ p.issuer) × (is_empty e.subject ≡ false)
expected_lem p e h =
    let at_p : str_eq e.provider p.name ≡ true = ground arith in
    let at_i : str_eq e.issuer p.issuer ≡ true = ground arith in
    ((eq_iff e.provider p.name).0 at_p, (eq_iff e.issuer p.issuer).0 at_i, ground arith)

identify_lem :
    (svc : Service) (r : Request) (t : Transaction) (s : Store) (e : ExternalIdentity)
    → identify svc r t s ≡ commit e
    → (p : Provider) × (browser : String) × IsExpected svc r t e p browser
unfolding identify
identify_lem svc r t s e h =
    let (state, h₁) = guard_passed (not (is_empty r.state)) ("expired_attempt", s) _ h in
    let (p, at_p, h₂) =
      bind_passed (or_return (provider_at r.provider svc.providers) ("identity_conflict", s)) _
        h₁ in
    let (same_p, h₃) =
      guard_passed (str_eq t.provider p.name && str_eq t.issuer p.issuer) ("identity_conflict", s) _
        h₂ in
    let (b, at_b, h₄) = bind_passed (or_return r.oauth_cookie ("expired_attempt", s)) _ h₃ in
    let (same_b, h₅) =
      guard_passed (str_eq (svc.hash b) t.browser_hash) ("expired_attempt", s) _ h₄ in
    let (quiet, h₆) = guard_passed (is_empty r.error) ("access_denied", s) _ h₅ in
    let (x, at_x, h₇) =
      bind_passed
        (or_return (p.exchange r.code t.code_verifier t.nonce) ("provider_unavailable", s)) _ h₆ in
    let (fits, h₈) = guard_passed (is_expected p x) ("provider_unavailable", s) _ h₇ in
    let x_e : x ≡ e = commit_injective h₈ in
    let (tp, ti) = both (str_eq t.provider p.name) (str_eq t.issuer p.issuer) same_p in
    let (ep, ei, es) = expected_lem p e (subst (λ y. is_expected p y ≡ true) x_e fits) in
    (
      p,
      b,
      record {
        brings_state = ground arith;
        configured = or_return_passed (provider_at r.provider svc.providers) _ at_p;
        of_provider = (eq_iff t.provider p.name).0 tp;
        of_issuer = (eq_iff t.issuer p.issuer).0 ti;
        brings = or_return_passed r.oauth_cookie _ at_b;
        same_browser = (eq_iff (svc.hash b) t.browser_hash).0 same_b;
        no_error = quiet;
        exchanged =
            or_return_passed (p.exchange r.code t.code_verifier t.nonce) _ at_x ∙ ap some x_e;
        from_provider = ep;
        from_issuer = ei;
        has_subject = es;
      },
    )

-- A reply that is no error page comes from steps that all succeed.
redirected :
    (m : Tx Refusal (Reply × Store)) (path : String)
    → (or_error_page m).0.answer ≡ redirect path
    → (reply : Reply) × (m ≡ commit (reply, (or_error_page m).1)) × (reply.answer ≡ redirect path)
redirected (commit (reply, s)) path h = (reply, refl, h)
redirected (rollback (code, s)) path h = cc

callback_steps_lem :
    (svc : Service) (d : Draws) (r : Request) (now : ℕ → ℕ) (s s' : Store) (reply : Reply)
    → callback_steps svc d r now s ≡ commit (reply, s')
    → (t : Transaction) × (s₁ : Store) × (consume_auth_transaction (svc.hash r.state) (now 0) s
        ≡ commit (t, s₁))
      × (reply.answer ≡ redirect t.return_to)
      × (p : Provider) × (browser : String) × (e : ExternalIdentity) × IsExpected svc r t e p
          browser
      × (cookies : List Cookie) × (sign_in svc d r t e now s₁ ≡ commit (cookies, s'))
unfolding callback_steps
callback_steps_lem svc d r now s s' reply h =
    let first =
      or_answer (consume_auth_transaction (svc.hash r.state) (now 0) s)
        (λ (why : Error). ("expired_attempt", s)) in
    let (x, consumed, h₁) = bind_passed first _ h in
    let (e, identified, h₂) = bind_passed (identify svc r x.0 x.1) _ h₁ in
    let (y, signed, h₃) = bind_passed (sign_in svc d r x.0 e now x.1) _ h₂ in
    let last : (
      record {
        answer = redirect x.0.return_to;
        cookies = y.0 ++ cleared oauth_cookie_name true ∷ [];
      },
      y.1,
    )
        ≡ (reply, s') =
      commit_injective h₃ in
    let (p, b, expected) = identify_lem svc r x.0 x.1 e identified in
    (
      x.0,
      x.1,
      or_answer_passed (consume_auth_transaction (svc.hash r.state) (now 0) s) _ consumed,
      sym (ap (λ (z : Reply × Store). z.0.answer) last),
      p,
      b,
      e,
      expected,
      y.0,
      signed ∙ ap (λ z. commit (y.0, z)) (ap (λ z. z.1) last),
    )

-- A callback that answers with a redirect, not with the error page, has consumed an attempt of the
-- table with the hash of its state, which was neither consumed before nor expired, and goes to that attempt's return path; the attempt is of the provider
-- in the path of the request and of its issuer, and of the browser that brings the cookie; the state
-- is not empty and the provider reports no error; and the provider exchanged the code, under the
-- attempt's verifier and nonce, for an identity of its own, with a subject, that the sign-in accepts.
pub callback_signs_in :
    (svc : Service) (d : Draws) (r : Request) (now : ℕ → ℕ) (s : Store) (path : String)
    → (callback svc d r now s).0.answer ≡ redirect path
    → (t : Transaction) × (s₁ : Store) × (consume_auth_transaction (svc.hash r.state) (now 0) s
        ≡ commit (t, s₁))
      × WasOpen (svc.hash r.state) (now 0) s t
      × (path ≡ t.return_to)
      × (p : Provider) × (browser : String) × (e : ExternalIdentity) × IsExpected svc r t e p
          browser
      × (cookies : List Cookie) × (sign_in svc d r t e now s₁
          ≡ commit (cookies, (callback svc d r now s).1))
unfolding callback
callback_signs_in svc d r now s path h =
    let (reply, done, to) = redirected (callback_steps svc d r now s) path h in
    let (t, s₁, consumed, goes, p, b, e, expected, cookies, signed) =
      callback_steps_lem svc d r now s (callback svc d r now s).1 reply done in
    let same : redirect path ≡ redirect t.return_to = sym to ∙ goes in
    (t, s₁, consumed, consumed-WasOpen _ _ s s₁ t consumed, cc, p, b, e, expected, cookies, signed)

expired_attempt :
    (svc : Service) (d : Draws) (r : Request) (now : ℕ → ℕ) (s : Store)
    → consume_auth_transaction (svc.hash r.state) (now 0) s ≡ rollback no_attempt
    → callback svc d r now s ≡ (record { answer = error_page "expired_attempt"; cookies = [] }, s)
unfolding callback callback_steps
expired_attempt svc d r now s h = rw (callback, callback_steps, h) refl

-- Where one attempt at most has the hash of a state: once a callback has consumed the attempt,
-- whatever it answers, then after any transactions every callback with that state answers the error
-- page for an expired attempt, sets no cookie and changes nothing.
pub callback_once :
    (svc : Service) (d d' : Draws) (r r' : Request) (now now' : ℕ → ℕ) (s s₁ : Store)
    (t : Transaction) (ops : List Op)
    → rows_affected (has_state (svc.hash r.state)) s.attempts ≤ 1
    → consume_auth_transaction (svc.hash r.state) (now 0) s ≡ commit (t, s₁)
    → r'.state ≡ r.state
    → callback svc d' r' now' (run ops (callback svc d r now s).1) ≡ (
      record { answer = error_page "expired_attempt"; cookies = [] },
      run ops (callback svc d r now s).1,
    )
callback_once svc d d' r r' now now' s s₁ t ops few e same =
    let (more, led) = callback-LeadsTo svc d r now s s₁ t e in
    let s' = (callback svc d r now s).1 in
    let once = consumed_once (svc.hash r.state) (now 0) (now' 0) s s₁ t (more ++ ops) few e in
    let at_s' : run (more ++ ops) s₁ ≡ run ops s' = run-append more ops s₁ ∙ ap (run ops) led in
    expired_attempt svc d' r' now' (run ops s') (
      subst (λ x. consume_auth_transaction (svc.hash x) (now' 0) (run ops s') ≡ rollback no_attempt)
        (sym same)
        (subst (λ x. consume_auth_transaction (svc.hash r.state) (now' 0) x ≡ rollback no_attempt)
          at_s' once))
