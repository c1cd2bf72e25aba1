-- ===== src/Sql/Rows.antt =====
-- What updates and selections keep of the rows of a table.
use plaiflowapp.Base.{
  Bool, true, false, ◌≡◌, refl, sym, ap, subst, ◌∙◌, inl, inr, List, [], ◌∷◌, some, ◌⊎◌, Bool-cases,
  In, All,
}
use plaiflowapp.Sql.{update_where, delete_where, select_where, query_row}

module _ {A : Type 0} where
  pub All-In : (P : A → Type 0) (rows : List A) {r : A} → All P rows → In r rows → P r
  All-In P [] h i = absurd i
  All-In P (x ∷ rows) (px, h) (inl e) = subst P (sym e) px
  All-In P (x ∷ rows) (px, h) (inr i) = All-In P rows h i

  pub All-of_In : {P : A → Type 0} (rows : List A) → ((r : A) → In r rows → P r) → All P rows
  All-of_In [] h = tt
  All-of_In (x ∷ rows) h = (h x (inl refl), All-of_In rows (λ r i. h r (inr i)))

  -- An update keeps what it keeps of the rows that it changes.
  pub All-update_where :
      {P : A → Type 0} (p : A → Bool) (f : A → A) (rows : List A)
      → ((r : A) → In r rows → p r ≡ true → P r → P (f r))
      → All P rows
      → All P (update_where p f rows)
  unfolding update_where
  All-update_where p f [] keep h = tt
  All-update_where p f (r ∷ rows) keep (pr, h) = elim (Bool-cases (p r)) [
    | inl hit ↦
        rw hit (keep r (inl refl) hit pr, All-update_where p f rows (λ x i. keep x (inr i)) h)
    | inr miss ↦ rw miss (pr, All-update_where p f rows (λ x i. keep x (inr i)) h)
  ]

  -- A row that the command does not match stays.
  pub In-update_where_miss :
      (p : A → Bool) (f : A → A) (rows : List A) {r : A}
      → p r ≡ false
      → In r rows
      → In r (update_where p f rows)
  unfolding update_where
  In-update_where_miss p f [] miss i = i
  In-update_where_miss p f (x ∷ rows) miss (inl e) = inl (rw (ap p (sym e) ∙ miss) e)
  In-update_where_miss p f (x ∷ rows) miss (inr i) = inr (In-update_where_miss p f rows miss i)

  -- A row that the command matches is changed.
  pub In-update_where_hit :
      (p : A → Bool) (f : A → A) (rows : List A) {r : A}
      → p r ≡ true
      → In r rows
      → In (f r) (update_where p f rows)
  unfolding update_where
  In-update_where_hit p f [] hit i = i
  In-update_where_hit p f (x ∷ rows) hit (inl e) = inl (rw (ap p (sym e) ∙ hit) (ap f e))
  In-update_where_hit p f (x ∷ rows) hit (inr i) = inr (In-update_where_hit p f rows hit i)

  pub In-select_where :
      (p : A → Bool) (rows : List A) {r : A} → In r (select_where p rows) → In r rows × (p r ≡ true)
  unfolding select_where
  In-select_where p [] i = absurd i
  In-select_where p (x ∷ rows) {r} i = elim (Bool-cases (p x)) [
    | inl hit ↦ elim (rw hit at i) [
      | inl e ↦ (inl e, ap p e ∙ hit)
      | inr i' ↦ let (j, q) = In-select_where p rows i' in (inr j, q)
    ]
    | inr miss ↦ let (j, q) = In-select_where p rows {r = r} (rw miss at i) in (inr j, q)
  ]

  pub query_row-In :
      (p : A → Bool) (rows : List A) {r : A} → query_row p rows ≡ some r → In r rows × (p r ≡ true)
  unfolding query_row
  query_row-In p [] h = absurd (cc)
  query_row-In p (x ∷ rows) {r} h = elim (Bool-cases (p x)) [
    | inl hit ↦
        let e : some x ≡ some r = rw hit at h in
        let e' : x ≡ r = cc in (inl (sym e'), ap p (sym e') ∙ hit)
    | inr miss ↦ let (j, q) = query_row-In p rows {r = r} (rw miss at h) in (inr j, q)
  ]

-- A row after an update is one that stayed, or the image of one that matched.
pub In-update_where_back :
    {A : Type 0} (p : A → Bool) (f : A → A) (rows : List A) (x : A)
    → In x (update_where p f rows)
    → (In x rows × (p x ≡ false)) ⊎ ((y : A) × In y rows × (p y ≡ true) × (x ≡ f y))
unfolding update_where
In-update_where_back p f [] x i = absurd i
In-update_where_back p f (y ∷ rows) x (inl e) = elim (Bool-cases (p y)) [
  | inl hit ↦ inr (y, inl refl, hit, rw hit at e)
  | inr miss ↦ let e' : x ≡ y = rw miss at e in inl (inl e', ap p e' ∙ miss)
]
In-update_where_back p f (y ∷ rows) x (inr i) = elim (In-update_where_back p f rows x i) [
  | inl (j, miss) ↦ inl (inr j, miss)
  | inr (z, j, hit, e) ↦ inr (z, inr j, hit, e)
]

pub In-delete_where :
    {A : Type 0} (p : A → Bool) (rows : List A) (x : A)
    → In x (delete_where p rows)
    → In x rows × (p x ≡ false)
unfolding delete_where
In-delete_where p [] x i = absurd i
In-delete_where p (y ∷ rows) x i = elim (Bool-cases (p y)) [
  | inl hit ↦ let (j, out) = In-delete_where p rows x (rw hit at i) in (inr j, out)
  | inr miss ↦ elim (rw miss at i) [
    | inl e ↦ (inl e, ap p e ∙ miss)
    | inr j ↦ let (k, out) = In-delete_where p rows x j in (inr k, out)
  ]
]
