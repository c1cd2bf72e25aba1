-- ===== src/Accounting/Books/Fresh.antt =====
-- An approval rests on the rules as they are: what the commands of
-- api/internal/postgres/accounting.go write to the versions and rules of an organization.
use plaiflowapp.Base.{
  ℕ, ◌+◌, Bool, true, false, not, ◌&&◌, ◌||◌, ◌≡◌, refl, ap, List, ◌∷◌, some, String, str_eq, ◌==◌,
  any, arith, eq_iff, Option-cases, inl, inr, All,
}
use plaiflowapp.Sql.{
  Tx, commit, rollback, guard_passed, bind_passed, commit_injective, update_where, query_row,
}
use plaiflowapp.Reviews.{document_at, is_kept}
use plaiflowapp.Accounting.Books.{
  Approved, MappingRule, Category, Store, Error, Strings, set_of, next_version, bump, version_of,
  manages, name_fits, same_name, create_category, toggles, set_category_archived, renames,
  rename_category, invalid, conflict, forbidden, not_found, refused,
}
use plaiflowapp.Accounting.Books.Rules.{
  active_vendor, active_category, document_type_fits, rule_at, create_rule, retire_rule,
}
use plaiflowapp.Accounting.Books.Approving.{
  ApproveInput, approve, valid_approval, valid_rule, is_reviewed, standing_review, or_else,
  vendor_code, rule_stands, is_current, revision_of, supersede, collides, approval_of,
}
use plaiflowapp.Accounting.Books.Ops.{
  Op, creating_category, archiving, renaming, creating_rule, retiring_rule, approving, elsewhere,
  exec,
}

-- Each rule belongs to an organization whose rules have a version.
abbrev pub HasSets : Store → Type 0
HasSets s = All (λ (r : MappingRule). any (set_of r.organization_id) s.rule_sets ≡ true) s.rules

-- The command changes the rules or the categories of `o`.
unfoldable pub Revises : String → Op → Type 0
Revises o (archiving user x id archived now) = x ≡ o
Revises o (renaming user x id name now) = x ≡ o
Revises o (creating_rule i) = i.organization_id ≡ o
Revises o (retiring_rule user x id now) = x ≡ o
Revises o _ = ⊥

-- The approval that a command stores, over those that it finds.
unfoldable pub ApprovedAs : ApproveInput → List Approved → List Approved → Type 0
ApprovedAs i rows rows' =
    let prior = query_row (is_current i.organization_id i.document_id) rows in
    let older = supersede prior i.approved_at rows in
    (revision_of prior ≡ i.expected_revision)
    × (any (collides i (revision_of prior + 1)) older ≡ false)
    × (a : Approved) × (a.id ≡ i.id)
    × (is_current i.organization_id i.document_id a ≡ true)
    × (a.revision ≡ revision_of prior + 1)
    × (a ∷ older ≡ rows')

-- What a command writes to the rules, their versions and the approvals.
unfoldable pub Written : Op → Store → Store → Type 0
Written (archiving user o id archived now) s s' =
    (s.rules ≡ s'.rules) × (bump o s.rule_sets ≡ s'.rule_sets) × (s.approvals ≡ s'.approvals)
Written (renaming user o id name now) s s' =
    (s.rules ≡ s'.rules) × (bump o s.rule_sets ≡ s'.rule_sets) × (s.approvals ≡ s'.approvals)
Written (creating_rule i) s s' =
    ((r : MappingRule) × (r.organization_id ≡ i.organization_id) × (r ∷ s.rules ≡ s'.rules))
    × (bump i.organization_id s.rule_sets ≡ s'.rule_sets)
    × (s.approvals ≡ s'.approvals)
Written (retiring_rule user o id now) s s' =
    (any (rule_at o id) s.rules ≡ true)
    × (update_where (rule_at o id) (λ (r : MappingRule). record r { retired_at = some now }) s.rules
        ≡ s'.rules)
    × (update_where (set_of o) next_version s.rule_sets ≡ s'.rule_sets)
    × (s.approvals ≡ s'.approvals)
Written (approving i) s s' =
    (s.rules ≡ s'.rules) × (s.rule_sets ≡ s'.rule_sets) × ApprovedAs i s.approvals s'.approvals
Written op s s' = (s.rules ≡ s'.rules) × (s.rule_sets ≡ s'.rule_sets) × (s.approvals ≡ s'.approvals)

same_tables :
    {a b : Store}
    → ◌≡◌ {A = Tx Error Store} (commit a) (commit b)
    → (a.rules ≡ b.rules) × (a.rule_sets ≡ b.rule_sets) × (a.approvals ≡ b.approvals)
same_tables h =
    let e = commit_injective h in
    (
      ap (λ (y : Store). y.rules) e,
      ap (λ (y : Store). y.rule_sets) e,
      ap (λ (y : Store). y.approvals) e,
    )

-- What an approval that succeeds has checked of the versions.
pub approve-version :
    (st : Strings) (enabled : Bool) (i : ApproveInput) (s s' : Store)
    → approve st enabled i s ≡ commit s'
    → (version_of i.organization_id s.rule_sets ≡ i.rule_set_version)
      × (s.rules ≡ s'.rules)
      × (s.rule_sets ≡ s'.rule_sets)
      × ApprovedAs i s.approvals s'.approvals
unfolding approve ApprovedAs
approve-version st enabled i s s' h =
    let org = i.organization_id in
    let prior = query_row (is_current org i.document_id) s.approvals in
    let (a, h₁) = guard_passed (valid_approval st i) invalid _ h in
    let (b, h₂) = guard_passed (valid_rule i) invalid _ h₁ in
    let (c, h₃) = guard_passed (manages i.actor_id org s) forbidden _ h₂ in
    let (d, h₄) =
      guard_passed (is_kept (query_row (document_at org i.document_id) s.review.documents))
        not_found _ h₃ in
    let (e, h₅) =
      guard_passed
        (is_reviewed i
          (query_row (standing_review enabled org i.document_id s.review) s.review.reviews))
        conflict _ h₄ in
    let (f, h₆) = guard_passed (version_of org s.rule_sets == i.rule_set_version) conflict _ h₅ in
    let (x, at_x, h₇) =
      bind_passed (or_else (query_row (active_category org i.category_id) s.categories) invalid) _
        h₆ in
    let (y, at_y, h₈) = bind_passed (or_else (vendor_code i s) invalid) _ h₇ in
    let (g, h₉) = guard_passed (rule_stands i s) conflict _ h₈ in
    let (k, h₁₀) = guard_passed (revision_of prior == i.expected_revision) conflict _ h₉ in
    let (l, h₁₁) =
      guard_passed
        (not (any (collides i (revision_of prior + 1)) (supersede prior i.approved_at s.approvals)))
        conflict _ h₁₀ in
    let (rules, sets, rows) = same_tables h₁₁ in
    (
      ground arith,
      rules,
      sets,
      (
        ground arith,
        ground arith,
        approval_of st i x.name y (revision_of prior + 1),
        refl,
        current i x.name y (revision_of prior + 1),
        refl,
        rows,
      ),
    )
  where
    current :
        (i : ApproveInput) (name code : String) (n : ℕ)
        → is_current i.organization_id i.document_id (approval_of st i name code n) ≡ true
    current i name code n =
        rw
          (
            (eq_iff i.organization_id i.organization_id).1 refl,
            (eq_iff i.document_id i.document_id).1 refl,
          )
          refl

set_category_archived-tables :
    (st : Strings) (user o id : String) (archived : Bool) (now : ℕ) (s s' : Store)
    → set_category_archived st user o id archived now s ≡ commit s'
    → (s.rules ≡ s'.rules) × (bump o s.rule_sets ≡ s'.rule_sets) × (s.approvals ≡ s'.approvals)
unfolding set_category_archived
set_category_archived-tables st user o id archived now s s' h =
    let (may, h₁) = guard_passed (manages user o s) forbidden _ h in
    elim (Option-cases (query_row (toggles o id archived) s.categories)) [
      | inl e ↦ let h₂ : rollback conflict ≡ commit s' = rw e at h₁ in cc
      | inr (c, e) ↦
          let h₂ = rw e at h₁ in
          let (fits, h₃) =
            guard_passed (archived || not (any (same_name st o id c.name) s.categories)) conflict _
              h₂ in
          same_tables h₃
    ]

pub exec-Written :
    (st : Strings) (enabled : Bool) (op : Op) (s s' : Store)
    → exec st enabled op s ≡ commit s'
    → Written op s s'
unfolding exec Written create_category rename_category create_rule retire_rule
exec-Written st enabled (creating_category user o id name now) s s' h =
    let (a, h₁) = guard_passed (not (str_eq id "") && name_fits (st.trim name)) invalid _ h in
    let (b, h₂) = guard_passed (manages user o s) forbidden _ h₁ in
    let (c, h₃) =
      guard_passed
        (not (any (λ (c : Category). str_eq c.id id) s.categories)
          && not (any (same_name st o id (st.trim name)) s.categories))
        conflict _ h₂ in
    same_tables h₃
exec-Written st enabled (archiving user o id archived now) s s' h =
    set_category_archived-tables st user o id archived now s s' h
exec-Written st enabled (renaming user o id name now) s s' h =
    let (a, h₁) = guard_passed (name_fits (st.trim name)) invalid _ h in
    let (b, h₂) = guard_passed (manages user o s) forbidden _ h₁ in
    let (c, h₃) =
      guard_passed
        (any (renames o id (st.trim name)) s.categories
          && not (any (same_name st o id (st.trim name)) s.categories))
        conflict _ h₂ in
    same_tables h₃
exec-Written st enabled (creating_rule i) s s' h =
    let (a, h₁) =
      guard_passed
        (not (str_eq i.id "")
          && not (str_eq i.vendor_id "")
          && not (str_eq i.category_id "")
          && document_type_fits i.document_type)
        invalid _ h in
    let (b, h₂) = guard_passed (manages i.actor_id i.organization_id s) forbidden _ h₁ in
    let (c, h₃) =
      guard_passed
        (any (active_vendor i.organization_id i.vendor_id) s.vendors
          && any (active_category i.organization_id i.category_id) s.categories)
        invalid _ h₂ in
    let (d, h₄) =
      guard_passed (not (any (λ (r : MappingRule). str_eq r.rule.id i.id) s.rules)) refused _ h₃ in
    let (rules, sets, kept) = same_tables h₄ in ((_, refl, rules), sets, kept)
exec-Written st enabled (retiring_rule user o id now) s s' h =
    let (a, h₁) = guard_passed (manages user o s) forbidden _ h in
    let (b, h₂) = guard_passed (any (rule_at o id) s.rules) conflict _ h₁ in
    let (rules, sets, kept) = same_tables h₂ in (b, rules, sets, kept)
exec-Written st enabled (approving i) s s' h =
    let (v, rules, sets, stored) = approve-version st enabled i s s' h in (rules, sets, stored)
exec-Written st enabled (elsewhere review vendors) s s' h = same_tables h
