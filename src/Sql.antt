-- ===== src/Sql.antt =====
-- What the SQL in api/internal/postgres does to a table: an UPDATE, a DELETE or a SELECT with its
-- WHERE clause, on a table that is the list of its rows, and the end of a transaction.
pub mod Rows
pub mod Counting
pub mod Runs
pub mod Order
use plaiflowapp.Base.{
  ◌≡◌, refl, ℕ, zero, suc, ◌+◌, Bool, true, false, not, ◌&&◌, ◌||◌, List, [], ◌∷◌, ◌++◌, Option,
  none, some, String, str_eq, ltb, leb, ◌==◌, if◌then◌else◌,
}

-- How a transaction ends: `commit` with its value, or `rollback` with the error that it returns.
pub data Tx {ℓ} (E : Type 0) (V : Type ℓ) : Type ℓ where
  commit : V → Tx E V
  rollback : E → Tx E V

infixl 5 ◌>>=◌ ◌>>◌
abbrev pub ◌>>=◌ {ℓ κ} : {E : Type 0} {V : Type ℓ} {W : Type κ} → Tx E V → (V → Tx E W) → Tx E W
commit v >>= next = next v
rollback why >>= next = rollback why

abbrev pub ◌>>◌ {ℓ} : {E : Type 0} {W : Type ℓ} → Tx E (Unit {0}) → Tx E W → Tx E W
check >> next = check >>= λ passed. next

-- `if !test { return …, why }`
abbrev pub guard : {E : Type 0} → Bool → E → Tx E (Unit {0})
guard test why = if test then commit tt else rollback why

-- A guarded step that succeeds has passed its guard.
pub guard_passed :
    {E A : Type 0} (b : Bool) (e : E) (m : Tx E A) {x : A}
    → (guard b e >> m) ≡ commit x
    → (b ≡ true) × (m ≡ commit x)
guard_passed true e m h = (refl, h)
guard_passed false e m h = cc

-- A bind that succeeds has a first step that succeeds.
pub bind_passed :
    {E V W : Type 0} (first : Tx E V) (next : V → Tx E W) {w : W}
    → (first >>= next) ≡ commit w
    → (v : V) × (first ≡ commit v) × (next v ≡ commit w)
bind_passed (rollback why) next h = cc
bind_passed (commit v) next h = (v, refl, h)

unfoldable pub is_committed : {E A : Type 0} → Tx E A → Bool
is_committed (commit a) = true
is_committed (rollback e) = false

-- What `is_committed` says of a bind whose second step cannot fail.
pub is_committed-bind :
    {E A B : Type 0} (m : Tx E A) (f : A → Tx E B)
    → is_committed m ≡ true
    → ((a : A) → is_committed (f a) ≡ true)
    → is_committed (m >>= f) ≡ true
unfolding is_committed
is_committed-bind (commit a) f h k = k a
is_committed-bind (rollback e) f h k = cc

pub is_committed-eq : {E A : Type 0} (m : Tx E A) → is_committed m ≡ true → (a : A) × (m ≡ commit a)
unfolding is_committed
is_committed-eq (commit a) h = (a, refl)
is_committed-eq (rollback e) h = cc

pub commit_injective : {E A : Type 0} {a b : A} → ◌≡◌ {A = Tx E A} (commit a) (commit b) → a ≡ b
commit_injective h = cc

module _ {A : Type 0} where
  -- `UPDATE … WHERE p`
  unfoldable pub update_where : (A → Bool) → (A → A) → List A → List A
  update_where p f [] = []
  update_where p f (r ∷ rows) = (if p r then f r else r) ∷ update_where p f rows

  -- `RowsAffected` of the same command.
  unfoldable pub rows_affected : (A → Bool) → List A → ℕ
  rows_affected p [] = 0
  rows_affected p (r ∷ rows) = (if p r then 1 else 0) + rows_affected p rows

  -- `SELECT … WHERE p`
  unfoldable pub select_where : (A → Bool) → List A → List A
  select_where p [] = []
  select_where p (r ∷ rows) = let rest = select_where p rows in if p r then r ∷ rest else rest

  -- `QueryRow` with a WHERE clause: `none` is ErrNoRows.
  unfoldable pub query_row : (A → Bool) → List A → Option A
  query_row p [] = none
  query_row p (r ∷ rows) = let rest = query_row p rows in if p r then some r else rest

-- `DELETE FROM … WHERE p`
unfoldable pub delete_where : {A : Type 0} → (A → Bool) → List A → List A
delete_where p [] = []
delete_where p (r ∷ rows) = let rest = delete_where p rows in if p r then rest else r ∷ rest

-- ORDER BY, for a test `lt` of the order.
unfoldable pub insert_by : {A : Type 0} → (A → A → Bool) → A → List A → List A
insert_by lt a [] = a ∷ []
insert_by lt a (b ∷ rows) =
    let rest = insert_by lt a rows in if lt b a then b ∷ rest else a ∷ b ∷ rows

unfoldable pub order_by : {A : Type 0} → (A → A → Bool) → List A → List A
unfolding insert_by
order_by lt [] = []
order_by lt (a ∷ rows) = insert_by lt a (order_by lt rows)

-- `column = value`, which a NULL column does not satisfy.
abbrev pub eq_column : Option String → String → Bool
eq_column none v = false
eq_column (some u) v = str_eq u v

abbrev pub expires_after : Option ℕ → ℕ → Bool
expires_after none t = false
expires_after (some e) t = ltb t e

abbrev pub expired_at : Option ℕ → ℕ → Bool
expired_at none t = false
expired_at (some e) t = leb e t
