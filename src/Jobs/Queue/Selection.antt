-- ===== src/Jobs/Queue/Selection.antt =====
-- The rows that a claim selects are rows of the table, each once.
use plaiflowapp.Base.{
  ℕ, zero, suc, Bool, false, ◌≡◌, inl, inr, List, [], ◌∷◌, arith, String, str_eq, eq_iff,
  Bool-cases, All, take,
}
use plaiflowapp.Sql.{insert_by, order_by, select_where}
use plaiflowapp.Jobs.{Job}
use plaiflowapp.Jobs.Rows.{UniqueIds}

module _ (P : Job → Type 0) where
  All-insert_by :
      (lt : Job → Job → Bool) (a : Job) (rows : List Job)
      → P a
      → All P rows
      → All P (insert_by lt a rows)
  unfolding insert_by
  All-insert_by lt a [] pa h = (pa, tt)
  All-insert_by lt a (b ∷ rows) pa (pb, h) = elim (Bool-cases (lt b a)) [
    | inl later ↦ rw later (pb, All-insert_by lt a rows pa h)
    | inr first ↦ rw first (pa, (pb, h))
  ]

  All-order_by : (lt : Job → Job → Bool) (rows : List Job) → All P rows → All P (order_by lt rows)
  unfolding order_by
  All-order_by lt [] h = tt
  All-order_by lt (a ∷ rows) (pa, h) =
      All-insert_by lt a (order_by lt rows) pa (All-order_by lt rows h)

  All-take : (n : ℕ) (rows : List Job) → All P rows → All P (take n rows)
  All-take zero rows h = tt
  All-take (suc n) [] h = tt
  All-take (suc n) (x ∷ rows) (px, h) = (px, All-take n rows h)

  All-select_where : (p : Job → Bool) (rows : List Job) → All P rows → All P (select_where p rows)
  unfolding select_where
  All-select_where p [] h = tt
  All-select_where p (x ∷ rows) (px, h) = elim (Bool-cases (p x)) [
    | inl hit ↦ rw hit (px, All-select_where p rows h)
    | inr miss ↦ rw miss (All-select_where p rows h)
  ]

-- Ids that differ do so in either order.
pub differ : (a b : String) → str_eq a b ≡ false → str_eq b a ≡ false
differ a b n = ground (arith, eq_iff a b, eq_iff b a)

UniqueIds-insert_by :
    (lt : Job → Job → Bool) (a : Job) (rows : List Job)
    → All (λ (x : Job). str_eq x.id a.id ≡ false) rows
    → UniqueIds rows
    → UniqueIds (insert_by lt a rows)
unfolding insert_by
UniqueIds-insert_by lt a [] fresh u = (tt, tt)
UniqueIds-insert_by lt a (b ∷ rows) (nb, fresh) (fb, u) = elim (Bool-cases (lt b a)) [
  | inl later ↦ rw later (
    All-insert_by (λ (x : Job). str_eq x.id b.id ≡ false) lt a rows (differ b.id a.id nb) fb,
    UniqueIds-insert_by lt a rows fresh u,
  )
  | inr first ↦ rw first ((nb, fresh), (fb, u))
]

pub UniqueIds-order_by :
    (lt : Job → Job → Bool) (rows : List Job) → UniqueIds rows → UniqueIds (order_by lt rows)
unfolding order_by
UniqueIds-order_by lt [] u = tt
UniqueIds-order_by lt (a ∷ rows) (fresh, u) =
    UniqueIds-insert_by lt a (order_by lt rows)
      (All-order_by (λ (x : Job). str_eq x.id a.id ≡ false) lt rows fresh)
      (UniqueIds-order_by lt rows u)

pub UniqueIds-take : (n : ℕ) (rows : List Job) → UniqueIds rows → UniqueIds (take n rows)
UniqueIds-take zero rows u = tt
UniqueIds-take (suc n) [] u = tt
UniqueIds-take (suc n) (x ∷ rows) (fresh, u) =
    (All-take (λ (y : Job). str_eq y.id x.id ≡ false) n rows fresh, UniqueIds-take n rows u)

pub UniqueIds-select_where :
    (p : Job → Bool) (rows : List Job) → UniqueIds rows → UniqueIds (select_where p rows)
unfolding select_where
UniqueIds-select_where p [] u = tt
UniqueIds-select_where p (x ∷ rows) (fresh, u) = elim (Bool-cases (p x)) [
  | inl hit ↦ rw hit (
    All-select_where (λ (y : Job). str_eq y.id x.id ≡ false) p rows fresh,
    UniqueIds-select_where p rows u,
  )
  | inr miss ↦ rw miss (UniqueIds-select_where p rows u)
]
