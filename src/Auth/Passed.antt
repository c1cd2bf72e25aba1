-- ===== src/Auth/Passed.antt =====
-- What the transactions on identities have checked and done when they succeed
-- (api/internal/postgres/auth.go).
use plaiflowapp.Base.{
  ℕ, true, false, not, ◌≡◌, refl, ap, ◌∷◌, none, some, String, str_eq, Bool-cases, Option-cases,
  inl, inr, ◌⊎◌, any, arith,
}
use plaiflowapp.Sql.{Tx, commit, rollback, guard_passed, commit_injective, query_row, update_where}
use plaiflowapp.Auth.{
  AttemptRow, Transaction, consume_auth_transaction, is_open, no_attempt, Error, Store, User,
  ExternalIdentity, identity_conflict, refused, is_provider, empty_to_nil,
}
use plaiflowapp.Auth.Accounts.{
  LoginResult, login, insert_identity, find_login, Inserted, invalid, duplicate, stored, audited,
  clashes, and_store, new_identity,
}

-- A transaction that only writes sessions and the audit.
abbrev pub Kept : Store → Store → Type 0
Kept s s' = (s.users ≡ s'.users) × (s.identities ≡ s'.identities) × (s.attempts ≡ s'.attempts)

pub same-Kept : {s s' : Store} → s ≡ s' → Kept s s'
same-Kept e = (
  ap (λ (y : Store). y.users) e,
  ap (λ (y : Store). y.identities) e,
  ap (λ (y : Store). y.attempts) e,
)

pub insert_identity_lem :
    (id user : String) (e : ExternalIdentity) (now : ℕ) (s s' : Store)
    → insert_identity id user e now s ≡ stored s'
    → (any (clashes id user e) s.identities ≡ false)
      × (any (λ (u : User). str_eq u.id user) s.users ≡ true)
      × (record s { identities = new_identity id user e now ∷ s.identities } ≡ s')
unfolding insert_identity
insert_identity_lem id user e now s s' h =
    let known = any (λ (u : User). str_eq u.id user) s.users in
    let taken = any (clashes id user e) s.identities in
    elim (Bool-cases (is_provider e.provider)) [
      | inr odd ↦ let h' : invalid ≡ stored s' = rw odd at h in cc
      | inl fine ↦ elim (Bool-cases taken) [
        | inl t ↦ let h' : duplicate ≡ stored s' = rw (fine, t) at h in cc
        | inr free ↦ elim (Bool-cases known) [
          | inr k ↦ let h' : invalid ≡ stored s' = rw (fine, free, k) at h in cc
          | inl k ↦
              let h' : stored (record s { identities = new_identity id user e now ∷ s.identities })
                  ≡ stored s' =
                rw (fine, free, k) at h in
              (free, k, cc)
        ]
      ]
    ]

-- The user that a login makes.
abbrev pub joined : ExternalIdentity → String → ℕ → Store → Store
joined e user now s = record s {
  users =
      record {
        id = user;
        display_name = empty_to_nil e.display_name;
        picture_url = empty_to_nil e.picture_url;
        created_at = now;
        updated_at = now;
      }
      ∷ s.users;
}

and_store-same :
    (s s' : Store) (found : Tx Error LoginResult) (r : LoginResult)
    → and_store s found ≡ commit (r, s')
    → s ≡ s'
and_store-same s s' (rollback e) r h = cc
and_store-same s s' (commit x) r h =
    let e : (x, s) ≡ (r, s') = commit_injective h in ap (λ p. p.1) e

pub login_lem :
    (e : ExternalIdentity) (user id : String) (now : ℕ) (seen s s' : Store) (r : LoginResult)
    → login e user id now seen s ≡ commit (r, s')
    → (s ≡ s')
      ⊎ ((t : Store) × (any (λ (u : User). str_eq u.id user) s.users ≡ false)
          × (insert_identity id user e now (joined e user now s) ≡ stored t)
          × (audited user "auth.login" "auth_identity" id t ≡ s'))
unfolding login
login_lem e user id now seen s s' r h = elim (Option-cases (find_login e seen)) [
  | inr (found, f) ↦
      let h' : and_store s found ≡ commit (r, s') = rw (login, f) at h in
      inl (and_store-same s s' found r h')
  | inl f ↦
      let h₀ = rw (login, f) at h in
      let (new, h₁) =
        guard_passed (not (any (λ (u : User). str_eq u.id user) s.users)) refused _ h₀ in
      made (ground arith) (insert_identity id user e now (joined e user now s)) refl h₁
]
  where
    made :
        any (λ (u : User). str_eq u.id user) s.users ≡ false
        → (o : Inserted) → insert_identity id user e now (joined e user now s) ≡ o
        → elim o [
          | invalid ↦ rollback refused
          | duplicate ↦ elim (find_login e s) [
            | some found ↦ and_store s found
            | none ↦ rollback identity_conflict
          ]
          | stored t ↦ commit (
            record { user_id = user; created = true },
            audited user "auth.login" "auth_identity" id t,
          )
        ]
          ≡ commit (r, s')
        → (s ≡ s')
          ⊎ ((t : Store) × (any (λ (u : User). str_eq u.id user) s.users ≡ false)
              × (insert_identity id user e now (joined e user now s) ≡ stored t)
              × (audited user "auth.login" "auth_identity" id t ≡ s'))
    made new invalid is k = cc
    made new duplicate is k = elim (Option-cases (find_login e s)) [
      | inr (found, f) ↦
          let k' : and_store s found ≡ commit (r, s') = rw f at k in
          inl (and_store-same s s' found r k')
      | inl f ↦
          let k' : ◌≡◌ {A = Tx Error (LoginResult × Store)} (rollback identity_conflict)
              (commit (r, s')) =
            rw f at k in
          cc
    ]
    made new (stored t) is k =
        let pair : (
          record { user_id = user; created = true },
          audited user "auth.login" "auth_identity" id t,
        )
            ≡ (r, s') =
          commit_injective k in
        inr (t, new, is, ap (λ p. p.1) pair)

abbrev pub consumed : String → ℕ → Store → Store
consumed h now s = record s {
  attempts =
      update_where (is_open h now) (λ (b : AttemptRow). record b { consumed_at = some now })
        s.attempts;
}

pub consume_auth_transaction_lem :
    (h : String) (now : ℕ) (s s' : Store) (t : Transaction)
    → consume_auth_transaction h now s ≡ commit (t, s')
    → (a : AttemptRow) × (query_row (is_open h now) s.attempts ≡ some a)
      × (a.attempt ≡ t)
      × (consumed h now s ≡ s')
unfolding consume_auth_transaction
consume_auth_transaction_lem h now s s' t e =
    elim (Option-cases (query_row (is_open h now) s.attempts)) [
      | inl is ↦
          let e' : ◌≡◌ {A = Tx Error (Transaction × Store)} (rollback no_attempt) (commit (t, s')) =
            rw (consume_auth_transaction, is) at e in
          cc
      | inr (a, is) ↦
          let e' : commit (a.attempt, consumed h now s) ≡ commit (t, s') =
            rw (consume_auth_transaction, is) at e in
          let pair : (a.attempt, consumed h now s) ≡ (t, s') = commit_injective e' in
          (a, is, ap (λ p. p.0) pair, ap (λ p. p.1) pair)
    ]
