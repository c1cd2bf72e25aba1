-- ===== src/Sql/Order.antt =====
-- What an ordered and limited selection keeps of the rows.
use plaiflowapp.Base.{
  ℕ, zero, suc, ◌≤◌, Bool, ◌≡◌, ◌⊎◌, inl, inr, List, [], ◌∷◌, arith, Bool-cases, In, take, length,
}
use plaiflowapp.Sql.{insert_by, order_by}

In-insert_by :
    {A : Type 0} (lt : A → A → Bool) (a : A) (rows : List A) {r : A}
    → In r (insert_by lt a rows)
    → (r ≡ a) ⊎ In r rows
unfolding insert_by
In-insert_by lt a [] (inl e) = inl e
In-insert_by lt a [] (inr i) = absurd i
In-insert_by lt a (b ∷ rows) {r} i = elim (Bool-cases (lt b a)) [
  | inl later ↦ elim (rw later at i) [
    | inl e ↦ inr (inl e)
    | inr j ↦ elim (In-insert_by lt a rows j) [ inl e ↦ inl e | inr k ↦ inr (inr k) ]
  ]
  | inr first ↦ elim (rw first at i) [ inl e ↦ inl e | inr j ↦ inr j ]
]

pub In-order_by :
    {A : Type 0} (lt : A → A → Bool) (rows : List A) (r : A) → In r (order_by lt rows) → In r rows
unfolding order_by
In-order_by lt [] r i = i
In-order_by lt (a ∷ rows) r i = elim (In-insert_by lt a (order_by lt rows) i) [
  | inl e ↦ inl e
  | inr j ↦ inr (In-order_by lt rows r j)
]

pub In-take : {A : Type 0} (n : ℕ) (rows : List A) (r : A) → In r (take n rows) → In r rows
In-take zero rows r i = absurd i
In-take (suc n) [] r i = absurd i
In-take (suc n) (x ∷ rows) r (inl e) = inl e
In-take (suc n) (x ∷ rows) r (inr i) = inr (In-take n rows r i)

pub length-take_le : {A : Type 0} (n : ℕ) (rows : List A) → length (take n rows) ≤ n
length-take_le zero rows = omega arith
length-take_le (suc n) [] = omega arith
length-take_le (suc n) (x ∷ rows) = omega (arith, length-take_le n rows)
