-- ===== src/Auth/Opened.antt =====
-- The attempt that ConsumeAuthTransaction of api/internal/postgres/auth.go gives out.
use plaiflowapp.Base.{
  ℕ, ◌<◌, true, ◌≡◌, sym, ap, subst, ◌∙◌, none, String, str_eq, eq_iff, arith, In, Option-cases,
  inl, inr,
}
use plaiflowapp.Sql.{commit}
use plaiflowapp.Sql.Rows.{query_row-In}
use plaiflowapp.Auth.{Transaction, AttemptRow, Store, is_open, consume_auth_transaction}
use plaiflowapp.Auth.Passed.{consume_auth_transaction_lem}

-- The attempt `t` as the table held it: of this state, not consumed and not expired.
pub record WasOpen (state_hash : String) (now : ℕ) (s : Store) (t : Transaction) : Type 0 where
  pub row : AttemptRow
  pub stored : In row s.attempts
  pub of : row.attempt ≡ t
  pub of_state : t.state_hash ≡ state_hash
  pub unconsumed : row.consumed_at ≡ none
  pub unexpired : now < t.expires_at

pub consumed-WasOpen :
    (h : String) (now : ℕ) (s s' : Store) (t : Transaction)
    → consume_auth_transaction h now s ≡ commit (t, s')
    → WasOpen h now s t
consumed-WasOpen h now s s' t e =
    let (a, found, same, after) = consume_auth_transaction_lem h now s s' t e in
    let (i, hit) = query_row-In (is_open h now) s.attempts found in
    record {
      row = a;
      stored = i;
      of = same;
      of_state = ap (λ (x : Transaction). x.state_hash) (sym same) ∙ named a hit;
      unconsumed = fresh a hit;
      unexpired = subst (λ (x : Transaction). now < x.expires_at) same (ground arith);
    }
  where
    named : (a : AttemptRow) → is_open h now a ≡ true → a.attempt.state_hash ≡ h
    named a hit =
        let at : str_eq a.attempt.state_hash h ≡ true = ground arith in
        (eq_iff a.attempt.state_hash h).0 at

    fresh : (a : AttemptRow) → is_open h now a ≡ true → a.consumed_at ≡ none
    fresh a hit = elim (Option-cases a.consumed_at) [
      | inl e ↦ e
      | inr (t, e) ↦ absurd (ground (arith, e))
    ]
