-- ===== src/Accounting/Suggestion/Loop.antt =====
-- What the loop over the approved rules keeps.
use plaiflowapp.Base.{
  true, false, not, ◌&&◌, false≢true, ◌≡◌, refl, sym, ◌∙◌, ap, ◌≢◌, ◌≤◌, ◌<◌, List, [], ◌∷◌, ◌⊎◌,
  inl, inr, arith, In, String, str_eq, eq_iff, Bool-cases, ltb, ◌==◌, if◌then◌else◌,
}
use plaiflowapp.Accounting.Suggestion.{Rule, Choice, applies, priority, consider, choose, no_rule}

-- What the loop knows of the rules `Seen` so far.
pub record Inv (v d : String) (Seen : Rule → Type 0) (c : Choice) : Type 0 where
  pub top : (r : Rule) → Seen r → applies v d r ≡ true → priority r ≤ c.best_priority
  pub held :
      (c.best_priority ≡ 0)
      ⊎ (Seen c.chosen × (applies v d c.chosen ≡ true) × (priority c.chosen ≡ c.best_priority))
  pub agree :
      c.conflict ≡ false
      → (r : Rule) → Seen r
      → applies v d r ≡ true
      → priority r ≡ c.best_priority
      → r.category_id ≡ c.chosen.category_id
  pub differ :
      c.conflict ≡ true
      → (r : Rule) × Seen r
        × (applies v d r ≡ true)
        × (priority r ≡ c.best_priority)
        × (r.category_id ≢ c.chosen.category_id)

-- The rules seen after one more.
abbrev With : (Rule → Type 0) → Rule → Rule → Type 0
With Seen rule r = Seen r ⊎ (r ≡ rule)

module _ {v d : String} {Seen : Rule → Type 0} where
  skip-Inv :
      (rule : Rule) (c : Choice)
      → applies v d rule ≡ false
      → Inv v d Seen c
      → Inv v d (With Seen rule) c
  skip-Inv rule c out h = record {
    top = λ r. elim [
      | inl s ↦ h.top r s
      | inr e ↦ λ a. absurd (false≢true (sym out ∙ ap (applies v d) (sym e) ∙ a))
    ];
    held = elim h.held [ inl z ↦ inl z | inr (s, a, p) ↦ inr (inl s, a, p) ];
    agree = λ quiet r. elim [
      | inl s ↦ h.agree quiet r s
      | inr e ↦ λ a. absurd (false≢true (sym out ∙ ap (applies v d) (sym e) ∙ a))
    ];
    differ = λ loud. let (r, s, a, p, n) = h.differ loud in (r, inl s, a, p, n);
  }

  raise-Inv :
      (rule : Rule) (c : Choice)
      → applies v d rule ≡ true
      → c.best_priority < priority rule
      → Inv v d Seen c
      → Inv v d
          (With Seen rule)
          (record { best_priority = priority rule; chosen = rule; conflict = false })
  raise-Inv rule c a up h = record {
    top =
        λ r. elim [ inl s ↦ λ a'. omega (arith, h.top r s a') | inr e ↦ λ a'. rw e (omega arith) ];
    held = inr (inr refl, a, refl);
    agree = λ quiet r. elim [
      | inl s ↦ λ a' p. absurd (omega (arith, h.top r s a'))
      | inr e ↦ λ a' p. ap (λ (x : Rule). x.category_id) e
    ];
    differ = λ loud. absurd (false≢true loud);
  }

  clash-Inv :
      (rule : Rule) (c : Choice)
      → applies v d rule ≡ true
      → priority rule ≡ c.best_priority
      → rule.category_id ≢ c.chosen.category_id
      → Inv v d Seen c
      → Inv v d (With Seen rule) (record c { conflict = true })
  clash-Inv rule c a level n h = record {
    top = λ r. elim [ inl s ↦ h.top r s | inr e ↦ λ a'. rw e (omega (arith, level)) ];
    held = elim h.held [ inl z ↦ inl z | inr (s, a', p) ↦ inr (inl s, a', p) ];
    agree = λ quiet. absurd (false≢true (sym quiet));
    differ = λ loud. (rule, inr refl, a, level, n);
  }

  keep-Inv :
      (rule : Rule) (c : Choice)
      → priority rule ≤ c.best_priority
      → (priority rule ≡ c.best_priority → rule.category_id ≡ c.chosen.category_id)
      → Inv v d Seen c
      → Inv v d (With Seen rule) c
  keep-Inv rule c low same h = record {
    top = λ r. elim [ inl s ↦ h.top r s | inr e ↦ λ a'. rw e low ];
    held = elim h.held [ inl z ↦ inl z | inr (s, a', p) ↦ inr (inl s, a', p) ];
    agree = λ quiet r. elim [
      | inl s ↦ h.agree quiet r s
      | inr e ↦ λ a' p. ap (λ (x : Rule). x.category_id) e ∙ same (ap priority (sym e) ∙ p)
    ];
    differ = λ loud. let (r, s, a, p, n) = h.differ loud in (r, inl s, a, p, n);
  }

  consider-Inv :
      (rule : Rule) (c : Choice)
      → Inv v d Seen c
      → Inv v d (With Seen rule) (if applies v d rule then consider rule c else c)
  unfolding consider
  consider-Inv rule c h = elim (Bool-cases (applies v d rule)) [
    | inr out ↦ rw out (skip-Inv rule c out h)
    | inl a ↦ rw a (applied a)
  ]
    where
      level :
          applies v d rule ≡ true
          → ltb c.best_priority (priority rule) ≡ false
          → Inv v d (With Seen rule) (
              if (priority rule == c.best_priority)
                && not (str_eq rule.category_id c.chosen.category_id)
              then record c { conflict = true }
              else c)
      level a low = elim (Bool-cases (priority rule == c.best_priority)) [
        | inr lower ↦ rw lower (keep-Inv rule c (ground arith) (λ e. absurd (ground arith)) h)
        | inl same ↦ elim (Bool-cases (str_eq rule.category_id c.chosen.category_id)) [
          | inl e ↦ rw (same, e) (keep-Inv rule c (ground arith) (λ _. (eq_iff _ _).0 e) h)
          | inr n ↦
              rw (same, n)
                (clash-Inv rule c a (ground arith) (λ e. false≢true (sym n ∙ (eq_iff _ _).1 e)) h)
        ]
      ]

      applied : applies v d rule ≡ true → Inv v d (With Seen rule) (consider rule c)
      applied a = elim (Bool-cases (ltb c.best_priority (priority rule))) [
        | inl up ↦ rw up (raise-Inv rule c a (ground arith) h)
        | inr low ↦ rw low (level a low)
      ]

pub Inv-iff :
    {v d : String} {S T : Rule → Type 0} {c : Choice}
    → ((r : Rule) → S r → T r)
    → ((r : Rule) → T r → S r)
    → Inv v d S c
    → Inv v d T c
Inv-iff to from h = record {
  top = λ r t. h.top r (from r t);
  held = elim h.held [ inl z ↦ inl z | inr (s, a, p) ↦ inr (to _ s, a, p) ];
  agree = λ quiet r t. h.agree quiet r (from r t);
  differ = λ loud. let (r, s, a, p, n) = h.differ loud in (r, to r s, a, p, n);
}

pub choose-Inv :
    {v d : String} (rules : List Rule) {S : Rule → Type 0} {c : Choice}
    → Inv v d S c
    → Inv v d (λ r. S r ⊎ In r rules) (choose v d rules c)
unfolding choose
choose-Inv [] h = Inv-iff (λ r s. inl s) (λ r. elim [ inl s ↦ s | inr e ↦ absurd e ]) h
choose-Inv {v} {d} (rule ∷ rules) {S} {c} h =
    Inv-iff (λ r. elim [ inl (inl s) ↦ inl s | inl (inr e) ↦ inr (inl e) | inr i ↦ inr (inr i) ])
      (λ r. elim [ inl s ↦ inl (inl s) | inr (inl e) ↦ inl (inr e) | inr (inr i) ↦ inr i ])
      (choose-Inv rules (consider-Inv rule c h))

pub start-Inv :
    {v d : String}
    → Inv v d (λ _. ⊥) (record { best_priority = 0; chosen = no_rule; conflict = false })
start-Inv = record {
  top = λ r s. absurd s;
  held = inl refl;
  agree = λ quiet r s. absurd s;
  differ = λ loud. absurd (false≢true loud);
}
