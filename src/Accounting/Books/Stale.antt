-- ===== src/Accounting/Books/Stale.antt =====
-- An approval of api/internal/postgres/accounting.go over rules that have changed is refused.
use plaiflowapp.Base.{
  ℕ, ◌+◌, ◌≤◌, ◌<◌, Bool, true, false, ◌≡◌, refl, sym, subst, ◌∙◌, List, [], ◌∷◌, some, String,
  str_eq, any, arith, eq_iff, Bool-cases, inl, inr, All,
}
use plaiflowapp.Sql.{commit, update_where, is_committed, is_committed-eq}
use plaiflowapp.Sql.Runs
use plaiflowapp.Sql.Runs.{run_keeps, perform_commit}
use plaiflowapp.Sql.Rows.{All-update_where}
use plaiflowapp.Accounting.Books.{
  RuleSet, MappingRule, Store, Strings, set_of, next_version, bump, version_of,
}
use plaiflowapp.Accounting.Books.Rules.{rule_at}
use plaiflowapp.Accounting.Books.Approving.{ApproveInput, approve}
use plaiflowapp.Accounting.Books.Ops.{
  Op, creating_category, archiving, renaming, creating_rule, retiring_rule, approving, elsewhere,
  exec,
}
use plaiflowapp.Accounting.Books.Versions.{
  raised, version_of-update_where, version_of-bump, any-update_where, any-bump,
}
use plaiflowapp.Accounting.Books.Fresh.{HasSets, Revises, Written, exec-Written, approve-version}

raised_less : (o x : String) (hit : Bool) (n m : ℕ) → m ≡ raised o x hit + n → n ≤ m
raised_less o x hit n m e = omega (arith, e)

-- The versions never go back.
pub exec-version :
    (st : Strings) (enabled : Bool) (x : String) (op : Op) (s s' : Store)
    → exec st enabled op s ≡ commit s'
    → version_of x s.rule_sets ≤ version_of x s'.rule_sets
unfolding Written
exec-version st enabled x op s s' h = grows op (exec-Written st enabled op s s' h)
  where
    bumped :
        (o : String)
        → bump o s.rule_sets ≡ s'.rule_sets
        → version_of x s.rule_sets ≤ version_of x s'.rule_sets
    bumped o e =
        subst (λ y. version_of x s.rule_sets ≤ version_of x y) e
          (raised_less o x true _ _ (version_of-bump o x s.rule_sets))

    same : s.rule_sets ≡ s'.rule_sets → version_of x s.rule_sets ≤ version_of x s'.rule_sets
    same e = subst (λ y. version_of x s.rule_sets ≤ version_of x y) e (omega arith)

    grows : (op : Op) → Written op s s' → version_of x s.rule_sets ≤ version_of x s'.rule_sets
    grows (archiving user o id archived now) (rules, e, kept) = bumped o e
    grows (renaming user o id name now) (rules, e, kept) = bumped o e
    grows (creating_rule i) (rules, e, kept) = bumped i.organization_id e
    grows (retiring_rule user o id now) (there, rules, e, kept) =
        subst (λ y. version_of x s.rule_sets ≤ version_of x y) e
          (raised_less o x (any (set_of o) s.rule_sets) _ _
            (version_of-update_where o x s.rule_sets))
    grows (creating_category user o id name now) (rules, e, kept) = same e
    grows (approving i) (rules, e, kept) = same e
    grows (elsewhere review vendors) (rules, e, kept) = same e

-- A rule of an organization is there, so its set is.
rule_has_set :
    (o id : String) (rules : List MappingRule) (sets : List RuleSet)
    → All (λ (r : MappingRule). any (set_of r.organization_id) sets ≡ true) rules
    → any (rule_at o id) rules ≡ true
    → any (set_of o) sets ≡ true
rule_has_set o id [] sets h t = let t' : false ≡ true = t in cc
rule_has_set o id (r ∷ rules) sets (hr, h) t = elim (Bool-cases (rule_at o id r)) [
  | inl here ↦
      let mine : str_eq r.organization_id o ≡ true = ground arith in
      subst (λ y. any (set_of y) sets ≡ true) ((eq_iff r.organization_id o).0 mine) hr
  | inr there ↦ rule_has_set o id rules sets h (ground arith)
]

-- A command that changes the rules or categories of `x` raises their version.
pub exec-Revises :
    (st : Strings) (enabled : Bool) (x : String) (op : Op) (s s' : Store)
    → exec st enabled op s ≡ commit s'
    → HasSets s
    → Revises x op
    → version_of x s.rule_sets < version_of x s'.rule_sets
unfolding Written Revises
exec-Revises st enabled x op s s' h sets revises =
    grows op (exec-Written st enabled op s s' h) revises
  where
    bumped :
        (o : String)
        → o ≡ x
        → bump o s.rule_sets ≡ s'.rule_sets
        → version_of x s.rule_sets < version_of x s'.rule_sets
    bumped o same e =
        let own : str_eq o x ≡ true = (eq_iff o x).1 same in
        let counted = version_of-bump o x s.rule_sets in
        let counted' : version_of x (bump o s.rule_sets) ≡ 1 + version_of x s.rule_sets =
          rw own at counted in
        subst (λ y. version_of x s.rule_sets < version_of x y) e (omega (arith, counted'))

    grows :
        (op : Op)
        → Written op s s'
        → Revises x op
        → version_of x s.rule_sets < version_of x s'.rule_sets
    grows (archiving user o id archived now) (rules, e, kept) same = bumped o same e
    grows (renaming user o id name now) (rules, e, kept) same = bumped o same e
    grows (creating_rule i) (rules, e, kept) same = bumped i.organization_id same e
    grows (retiring_rule user o id now) (there, rules, e, kept) same =
        let own : str_eq o x ≡ true = (eq_iff o x).1 same in
        let known = rule_has_set o id s.rules s.rule_sets sets there in
        let counted = version_of-update_where o x s.rule_sets in
        let counted' : version_of x (update_where (set_of o) next_version s.rule_sets)
            ≡ 1 + version_of x s.rule_sets =
          rw (own, known) at counted in
        subst (λ y. version_of x s.rule_sets < version_of x y) e (omega (arith, counted'))
    grows (creating_category user o id name now) w r = absurd r
    grows (approving i) w r = absurd r
    grows (elsewhere review vendors) w r = absurd r

All-map :
    {A : Type 0} {P Q : A → Type 0} (rows : List A)
    → ((r : A) → P r → Q r)
    → All P rows
    → All Q rows
All-map [] f h = tt
All-map (r ∷ rows) f (p, h) = (f r p, All-map rows f h)

-- Sets are never lost.
exec-HasSets :
    (st : Strings) (enabled : Bool) (op : Op) (s s' : Store)
    → exec st enabled op s ≡ commit s'
    → HasSets s
    → HasSets s'
unfolding Written
exec-HasSets st enabled op s s' h sets = keeps op (exec-Written st enabled op s s' h)
  where
    Has : List RuleSet → List MappingRule → Type 0
    Has rs rules = All (λ (r : MappingRule). any (set_of r.organization_id) rs ≡ true) rules

    moved :
        (rs : List RuleSet) (rules : List MappingRule)
        → Has rs rules
        → rs ≡ s'.rule_sets
        → rules ≡ s'.rules
        → HasSets s'
    moved rs rules k e d = subst (λ y. Has s'.rule_sets y) d (subst (λ y. Has y rules) e k)

    bumped : (o : String) → Has (bump o s.rule_sets) s.rules
    bumped o =
        All-map s.rules (λ r p. any-bump o r.organization_id s.rule_sets (rw p (ground arith))) sets

    keeps : (op : Op) → Written op s s' → HasSets s'
    keeps (archiving user o id archived now) (rules, e, kept) = moved _ s.rules (bumped o) e rules
    keeps (renaming user o id name now) (rules, e, kept) = moved _ s.rules (bumped o) e rules
    keeps (creating_rule i) ((r, of, rules), e, kept) =
        moved _ (r ∷ s.rules)
          (
            any-bump i.organization_id r.organization_id s.rule_sets
                (rw ((eq_iff i.organization_id r.organization_id).1 (sym of)) refl),
            bumped i.organization_id,
          )
          e rules
    keeps (retiring_rule user o id now) (there, rules, e, kept) =
        let all =
          All-map s.rules (λ r p. any-update_where o r.organization_id s.rule_sets ∙ p) sets in
        moved _ _
          (All-update_where (rule_at o id) (λ (r : MappingRule). record r { retired_at = some now })
            s.rules (λ r i hit p. p) all)
          e rules
    keeps (creating_category user o id name now) (rules, e, kept) =
        moved s.rule_sets s.rules sets e rules
    keeps (approving i) (rules, e, kept) = moved s.rule_sets s.rules sets e rules
    keeps (elsewhere review vendors) (rules, e, kept) = moved s.rule_sets s.rules sets e rules

-- Where each rule belongs to an organization whose rules have a version: an approval made under the
-- version of the rules that a store shows does not commit once, after any commands, a command that
-- archives, restores or renames a category of the organization, or creates or retires a rule of it,
-- has committed; nor after any further commands.
pub approve_stale :
    (st : Strings) (enabled : Bool) (i : ApproveInput) (s : Store) (before : List Op) (op : Op)
    (ops : List Op)
    → HasSets s
    → i.rule_set_version ≡ version_of i.organization_id s.rule_sets
    → Revises i.organization_id op
    → is_committed (exec st enabled op (Runs.run (exec st enabled) before s)) ≡ true
    → is_committed (
        approve st enabled i (
          Runs.run
            (exec st enabled)
            ops
            (Runs.perform (exec st enabled) op (Runs.run (exec st enabled) before s))))
      ≡ false
approve_stale st enabled i s before op ops sets read revises done =
    let ex = exec st enabled in
    let org = i.organization_id in
    let s₁ = Runs.run ex before s in
    let s₂ = Runs.perform ex op s₁ in
    let s₃ = Runs.run ex ops s₂ in
    let (t, e) = is_committed-eq (ex op s₁) done in
    let same : s₂ ≡ t = perform_commit ex op s₁ t e in
    let grown : (more : List Op) (from : Store)
        → version_of org from.rule_sets ≤ version_of org (Runs.run ex more from).rule_sets =
      λ more from.
        run_keeps ex (λ y. version_of org from.rule_sets ≤ version_of org y.rule_sets)
          (λ o a b h k. let step = exec-version st enabled org o a b h in omega (arith, k, step))
          more from (omega arith) in
    let sets₁ = run_keeps ex HasSets (exec-HasSets st enabled) before s sets in
    let up = exec-Revises st enabled org op s₁ t e sets₁ revises in
    let up' =
      subst (λ (y : Store). version_of org s₁.rule_sets < version_of org y.rule_sets) (sym same)
        up in
    let first = grown before s in
    let last = grown ops s₂ in
    elim (Bool-cases (is_committed (approve st enabled i s₃))) [
      | inr off ↦ off
      | inl went ↦
          let (u, d) = is_committed-eq (approve st enabled i s₃) went in
          let (version, rules, same_sets, stored) = approve-version st enabled i s₃ u d in
          absurd (omega (arith, version, read, up', first, last))
    ]
