-- ===== src/Accounting/Books/Versions.antt =====
-- The version of the rules of an organization across the commands of
-- api/internal/postgres/accounting.go.
use plaiflowapp.Base.{
  ℕ, ◌+◌, Bool, true, false, ◌&&◌, ◌||◌, ◌≡◌, refl, sym, subst, ◌∙◌, List, [], ◌∷◌, String, str_eq,
  if◌then◌else◌, any, arith, eq_iff, Bool-cases, inl, inr,
}
use plaiflowapp.Sql.{update_where, query_row}
use plaiflowapp.Accounting.Books.{RuleSet, set_of, next_version, bump, version_of}

apart : (o x : String) → str_eq x o ≡ false → str_eq o x ≡ false
apart o x h = elim (Bool-cases (str_eq o x)) [
  | inr e ↦ e
  | inl e ↦
      let same : o ≡ x = (eq_iff o x).0 e in
      let both : str_eq x o ≡ true = (eq_iff x o).1 (sym same) in
      let clash : true ≡ false = sym both ∙ h in cc
]

abbrev pub raised : String → String → Bool → ℕ
raised o x hit = if str_eq o x && hit then 1 else 0

-- An update of the set of `o` raises its version, if it is there, and no other.
pub version_of-update_where :
    (o x : String) (sets : List RuleSet)
    → version_of x (update_where (set_of o) next_version sets)
      ≡ raised o x (any (set_of o) sets) + version_of x sets
unfolding version_of query_row update_where
version_of-update_where o x [] = elim (Bool-cases (str_eq o x)) [
  | inl e ↦ rw e refl
  | inr e ↦ rw e refl
]
version_of-update_where o x (r ∷ sets) = elim (Bool-cases (set_of o r)) [
  | inl hit ↦
      let e : r.organization_id ≡ o = (eq_iff r.organization_id o).0 hit in
      elim (Bool-cases (set_of x r)) [
        | inl here ↦
            let same : str_eq o x ≡ true = rw e at here in rw (hit, here, same) (omega arith)
        | inr there ↦
            let other : str_eq o x ≡ false = rw e at there in
            let ih = version_of-update_where o x sets in rw (hit, there, other) (rw other at ih)
      ]
  | inr miss ↦ elim (Bool-cases (set_of x r)) [
    | inl here ↦
        let e : r.organization_id ≡ x = (eq_iff r.organization_id x).0 here in
        let other : str_eq o x ≡ false = apart o x (rw e at miss) in
        rw (miss, here, other) (omega arith)
    | inr there ↦ rw (miss, there) (version_of-update_where o x sets)
  ]
]

-- No set of `o`: its version is 0.
pub version_of_none :
    (o : String) (sets : List RuleSet) → any (set_of o) sets ≡ false → version_of o sets ≡ 0
unfolding version_of query_row
version_of_none o [] h = refl
version_of_none o (r ∷ sets) h = elim (Bool-cases (set_of o r)) [
  | inl here ↦ absurd (ground arith)
  | inr there ↦ rw there (version_of_none o sets (ground arith))
]

version_of_first :
    (o x : String) (sets : List RuleSet)
    → any (set_of o) sets ≡ false
    → version_of x (record { organization_id = o; version = 1 } ∷ sets)
      ≡ raised o x true + version_of x sets
unfolding version_of query_row
version_of_first o x sets gone = elim (Bool-cases (str_eq o x)) [
  | inl same ↦
      let nothing : version_of x sets ≡ 0 =
        subst (λ y. version_of y sets ≡ 0) ((eq_iff o x).0 same) (version_of_none o sets gone) in
      rw same (omega (arith, nothing))
  | inr other ↦ rw other (omega arith)
]

pub version_of-bump :
    (o x : String) (sets : List RuleSet)
    → version_of x (bump o sets) ≡ raised o x true + version_of x sets
unfolding bump
version_of-bump o x sets = elim (Bool-cases (any (set_of o) sets)) [
  | inl there ↦ let e = version_of-update_where o x sets in rw there (rw there at e)
  | inr gone ↦ rw gone (version_of_first o x sets gone)
]

-- A set that is there stays.
pub any-update_where :
    (o x : String) (sets : List RuleSet)
    → any (set_of x) (update_where (set_of o) next_version sets) ≡ any (set_of x) sets
unfolding update_where
any-update_where o x [] = refl
any-update_where o x (r ∷ sets) = elim (Bool-cases (set_of o r)) [
  | inl hit ↦ rw (hit, any-update_where o x sets) refl
  | inr miss ↦ rw (miss, any-update_where o x sets) refl
]

pub any-bump :
    (o x : String) (sets : List RuleSet)
    → (str_eq o x || any (set_of x) sets) ≡ true
    → any (set_of x) (bump o sets) ≡ true
unfolding bump
any-bump o x sets h = elim (Bool-cases (any (set_of o) sets)) [
  | inl there ↦ rw there (any-update_where o x sets ∙ known there)
  | inr gone ↦ rw gone h
]
  where
    known : any (set_of o) sets ≡ true → any (set_of x) sets ≡ true
    known there = elim (Bool-cases (str_eq o x)) [
      | inr other ↦ rw other at h
      | inl same ↦ subst (λ y. any (set_of y) sets ≡ true) ((eq_iff o x).0 same) there
    ]
