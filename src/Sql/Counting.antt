-- ===== src/Sql/Counting.antt =====
-- Counting rows before and after an update or a deletion.
use plaiflowapp.Base.{
  any, some, ap, sym, ◌∙◌, ◌+◌, ◌≤◌, ◌<◌, Bool, true, false, ◌&&◌, ◌≡◌, refl, List, [], ◌∷◌, arith,
  Bool-cases, In, inl, inr,
}
use plaiflowapp.Sql.{update_where, delete_where, rows_affected, query_row}

module _ {A : Type 0} where
  -- The rows that meet `q` after an update, against those before it.
  pub rows_affected-update_where :
      (p q : A → Bool) (f : A → A) (rows : List A)
      → rows_affected q (update_where p f rows) + rows_affected (λ r. p r && q r) rows
        ≡ rows_affected q rows + rows_affected (λ r. p r && q (f r)) rows
  unfolding rows_affected update_where
  rows_affected-update_where p q f [] = refl
  rows_affected-update_where p q f (r ∷ rows) =
      let ih = rows_affected-update_where p q f rows in
      elim (Bool-cases (p r)) [
        | inl hit ↦ rw hit (omega (arith, ih))
        | inr miss ↦ rw miss (omega (arith, ih))
      ]

  pub rows_affected-delete_where :
      (p q : A → Bool) (rows : List A)
      → rows_affected q (delete_where p rows) + rows_affected (λ r. p r && q r) rows
        ≡ rows_affected q rows
  unfolding rows_affected delete_where
  rows_affected-delete_where p q [] = refl
  rows_affected-delete_where p q (r ∷ rows) =
      let ih = rows_affected-delete_where p q rows in
      elim (Bool-cases (p r)) [
        | inl hit ↦ rw hit (omega (arith, ih))
        | inr miss ↦ rw miss (omega (arith, ih))
      ]

  -- An update that keeps what `q` reads.
  pub rows_affected-update_where_same :
      (p q : A → Bool) (f : A → A) (rows : List A)
      → ((r : A) → q (f r) ≡ q r)
      → rows_affected q (update_where p f rows) ≡ rows_affected q rows
  rows_affected-update_where_same p q f rows same =
      let e = rows_affected-update_where p q f rows in
      let g : (λ r. p r && q (f r)) ≡ (λ r. p r && q r) = λ i. λ r. p r && same r i in
      let e' = ap (λ t. rows_affected t rows) g in omega (arith, e, e')

  -- No row is counted by a test that fails on each.
  pub rows_affected_none :
      (q : A → Bool) (rows : List A)
      → ((r : A) → In r rows → q r ≡ false)
      → rows_affected q rows ≡ 0
  unfolding rows_affected
  rows_affected_none q [] h = refl
  rows_affected_none q (r ∷ rows) h =
      rw (h r (inl refl)) (omega (arith, rows_affected_none q rows (λ x i. h x (inr i))))

  pub rows_affected-any :
      (p : A → Bool) (rows : List A) → any p rows ≡ false → rows_affected p rows ≡ 0
  unfolding rows_affected
  rows_affected-any p [] e = refl
  rows_affected-any p (r ∷ rows) e = elim (Bool-cases (p r)) [
    | inl here ↦ absurd (ground arith)
    | inr there ↦ rw there (omega (arith, rows_affected-any p rows (ground arith)))
  ]

  pub rows_affected_mono :
      (p q : A → Bool) (rows : List A)
      → ((r : A) → p r ≡ true → q r ≡ true)
      → rows_affected p rows ≤ rows_affected q rows
  unfolding rows_affected
  rows_affected_mono p q [] h = omega arith
  rows_affected_mono p q (r ∷ rows) h = elim (Bool-cases (p r)) [
    | inl hit ↦ rw (hit, h r hit) (omega (arith, rows_affected_mono p q rows h))
    | inr miss ↦ rw miss (omega (arith, rows_affected_mono p q rows h))
  ]

  pub rows_affected_pos :
      (p : A → Bool) (rows : List A) {r : A} → In r rows → p r ≡ true → 0 < rows_affected p rows
  unfolding rows_affected
  rows_affected_pos p [] i h = absurd i
  rows_affected_pos p (x ∷ rows) {r} (inl e) h = rw (← e) (rw h (omega arith))
  rows_affected_pos p (x ∷ rows) (inr i) h = omega (arith, rows_affected_pos p rows i h)

-- A row that a key selects is the row that the query returns.
pub query_row_unique :
    {A : Type 0} (p : A → Bool) (rows : List A) {r x : A}
    → rows_affected p rows ≤ 1
    → query_row p rows ≡ some r
    → In x rows
    → p x ≡ true
    → x ≡ r
unfolding rows_affected query_row
query_row_unique p [] few h i t = absurd i
query_row_unique p (y ∷ rows) {r} {x} few h (inl e) t =
    let hit : p y ≡ true = ap p (sym e) ∙ t in let h' : some y ≡ some r = rw hit at h in cc
query_row_unique p (y ∷ rows) {r} {x} few h (inr i) t = elim (Bool-cases (p y)) [
  | inl hit ↦
      let few' : 1 + rows_affected p rows ≤ 1 = rw hit at few in
      let pos = rows_affected_pos p rows i t in absurd (omega (arith, few', pos))
  | inr miss ↦
      let few' : 0 + rows_affected p rows ≤ 1 = rw miss at few in
      query_row_unique p rows (omega (arith, few')) (rw miss at h) i t
]

-- A row with a key is the row that the query for the key returns.
pub query_row_key :
    {A : Type 0} (p : A → Bool) (rows : List A) {x : A}
    → rows_affected p rows ≤ 1
    → In x rows
    → p x ≡ true
    → query_row p rows ≡ some x
unfolding rows_affected query_row
query_row_key p [] few i t = absurd i
query_row_key p (y ∷ rows) {x} few (inl e) t = rw (← e) (rw t refl)
query_row_key p (y ∷ rows) {x} few (inr i) t = elim (Bool-cases (p y)) [
  | inl hit ↦
      let few' : 1 + rows_affected p rows ≤ 1 = rw hit at few in
      let pos = rows_affected_pos p rows i t in absurd (omega (arith, few', pos))
  | inr miss ↦
      let few' : 0 + rows_affected p rows ≤ 1 = rw miss at few in
      rw miss (query_row_key p rows (omega (arith, few')) i t)
]
