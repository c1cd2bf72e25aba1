-- ===== src/Auth/Reaching.antt =====
-- Steps of a handler of api/internal/auth/service.go that lead from a store to another by its
-- transactions.
use plaiflowapp.Base.{
  Bool, true, false, ◌≡◌, refl, ap, ◌∙◌, List, [], ◌∷◌, ◌++◌, Option, none, some,
}
use plaiflowapp.Sql.Runs
use plaiflowapp.Sql.Runs.{perform_commit}
use plaiflowapp.Sql.{Tx, commit, rollback, ◌>>=◌, guard}
use plaiflowapp.Auth.{Error, Store}
use plaiflowapp.Auth.Ops.{Op, exec, perform, run}
use plaiflowapp.Auth.Service.{Reply, or_return, or_answer, Refusal, or_error_page}
use plaiflowapp.Auth.Callback.{Early, or_reply}

-- `s'` is `s` after some transactions.
abbrev pub Reaches : Store → Store → Type 0
Reaches s s' = (ops : List Op) × (run ops s ≡ s')

pub run-append : (ops more : List Op) (s : Store) → run (ops ++ more) s ≡ run more (run ops s)
unfolding Runs.run
run-append [] more s = refl
run-append (op ∷ ops) more s = run-append ops more (perform op s)

pub Reaches-refl : (s : Store) → Reaches s s
unfolding Runs.run
Reaches-refl s = ([], refl)

pub Reaches-trans : (s t u : Store) → Reaches s t → Reaches t u → Reaches s u
Reaches-trans s t u (ops, e) (more, d) = (ops ++ more, run-append ops more s ∙ ap (run more) e ∙ d)

pub Reaches-exec : (op : Op) (s s' : Store) → exec op s ≡ commit s' → Reaches s s'
unfolding Runs.run
Reaches-exec op s s' e = (op ∷ [], perform_commit exec op s s' e)

-- Where each outcome of a step leaves the store: `at` of its value, or the store of its refusal.
unfoldable pub LeadsTo : {A B : Type 0} → (A → Store) → Store → Tx (B × Store) A → Type 0
LeadsTo at s (commit a) = Reaches s (at a)
LeadsTo at s (rollback e) = Reaches s e.1

pub LeadsTo-bind :
    {A B C : Type 0} (at : A → Store) (next_at : C → Store) (s : Store) (first : Tx (B × Store) A)
    (next : A → Tx (B × Store) C)
    → LeadsTo at s first
    → ((a : A) → LeadsTo next_at (at a) (next a))
    → LeadsTo next_at s (first >>= next)
unfolding LeadsTo
LeadsTo-bind at next_at s (rollback e) next h k = h
LeadsTo-bind {B = B} {C = C} at next_at s (commit a) next h k = ends (next a) (k a)
  where
    ends : (m : Tx (B × Store) C) → LeadsTo next_at (at a) m → LeadsTo next_at s m
    ends (commit c) k = Reaches-trans s (at a) (next_at c) h k
    ends (rollback e) k = Reaches-trans s (at a) e.1 h k

pub LeadsTo-commit :
    {A : Type 0} (B : Type 0) (at : A → Store) (s : Store) (a : A)
    → Reaches s (at a)
    → LeadsTo {B = B} at s (commit a)
unfolding LeadsTo
LeadsTo-commit B at s a h = h

pub LeadsTo-rollback :
    {A B : Type 0} (at : A → Store) (s : Store) (why : B) → LeadsTo at s (rollback (why, s))
unfolding LeadsTo
LeadsTo-rollback at s why = Reaches-refl s

module _ {B : Type 0} (s : Store) where
  pub LeadsTo-guard : (b : Bool) (why : B) → LeadsTo (λ (x : Unit {0}). s) s (guard b (why, s))
  unfolding LeadsTo
  LeadsTo-guard true why = Reaches-refl s
  LeadsTo-guard false why = Reaches-refl s

  pub LeadsTo-or_return :
      {A : Type 0} (o : Option A) (why : B) → LeadsTo (λ (a : A). s) s (or_return o (why, s))
  unfolding LeadsTo
  LeadsTo-or_return none why = Reaches-refl s
  LeadsTo-or_return (some a) why = Reaches-refl s

  -- A transaction of the store, whose error leaves it.
  pub LeadsTo-or_answer :
      {A : Type 0} (at : A → Store) (m : Tx Error A) (why : Error → B)
      → ((a : A) → m ≡ commit a → Reaches s (at a))
      → LeadsTo at s (or_answer m (λ e. (why e, s)))
  unfolding LeadsTo
  LeadsTo-or_answer at (commit a) why h = h a refl
  LeadsTo-or_answer at (rollback e) why h = Reaches-refl s

pub of_page :
    (s : Store) (m : Tx Refusal (Reply × Store))
    → LeadsTo (λ x. x.1) s m
    → Reaches s (or_error_page m).1
unfolding LeadsTo
of_page s (commit done) h = h
of_page s (rollback (code, t)) h = h

pub of_reply :
    (s : Store) (m : Tx Early (Reply × Store)) → LeadsTo (λ x. x.1) s m → Reaches s (or_reply m).1
unfolding LeadsTo
of_reply s (commit done) h = h
of_reply s (rollback (answer, t)) h = h
