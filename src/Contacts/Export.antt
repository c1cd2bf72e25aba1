-- ===== src/Contacts/Export.antt =====
-- Cells that a spreadsheet would run (exportRecord of api/internal/business/spreadsheet.go).
use plaiflowapp.Base.{
  ℕ, true, false, ◌≡◌, refl, List, [], ◌∷◌, ◌⊎◌, inl, inr, arith, All, map, subst, Text,
}
use plaiflowapp.Contacts.{
  Contact, contains_rune, trim_left, spreadsheet_formula, protected, columns_of, export_record,
}

-- A space, a tab or the end of a line.
abbrev pub IsBlank : ℕ → Type 0
IsBlank c = (c ≡ 32) ⊎ (c ≡ 9) ⊎ (c ≡ 13) ⊎ (c ≡ 10)

-- One of the four runes that start a formula.
abbrev pub IsStart : ℕ → Type 0
IsStart c = (c ≡ b'=') ⊎ (c ≡ b'+') ⊎ (c ≡ b'-') ⊎ (c ≡ b'@')

-- A text that a spreadsheet runs: after blanks, a rune that starts a formula.
pub data IsFormula : Text → Type 0 where
  starts : (c : ℕ) (s : Text) → IsStart c → IsFormula (c ∷ s)
  blank : (c : ℕ) (s : Text) → IsBlank c → IsFormula s → IsFormula (c ∷ s)

-- What the protection makes of a cell.
abbrev pub Guarded : Text → Text → Type 0
Guarded u v = (IsFormula u × (v ≡ b'\'' ∷ u)) ⊎ ((¬ IsFormula u) × (v ≡ u))

-- Two rows of as many cells, cell by cell.
abbrev pub GuardedRow : List Text → List Text → Type 0
GuardedRow [] [] = Unit
GuardedRow [] (v ∷ vs) = ⊥
GuardedRow (u ∷ us) [] = ⊥
GuardedRow (u ∷ us) (v ∷ vs) = Guarded u v × GuardedRow us vs

IsBlank-cases :
    (c : ℕ)
    → ((contains_rune c (32 ∷ 9 ∷ 13 ∷ 10 ∷ []) ≡ true) × IsBlank c)
      ⊎ ((contains_rune c (32 ∷ 9 ∷ 13 ∷ 10 ∷ []) ≡ false) × (¬ IsBlank c))
IsBlank-cases c = ground arith

IsStart-cases :
    (c : ℕ)
    → ((contains_rune c (b'=' ∷ b'+' ∷ b'-' ∷ b'@' ∷ []) ≡ true) × IsStart c)
      ⊎ ((contains_rune c (b'=' ∷ b'+' ∷ b'-' ∷ b'@' ∷ []) ≡ false) × (¬ IsStart c))
IsStart-cases c = ground arith

IsBlank-IsStart : (c : ℕ) → IsBlank c → ¬ IsStart c
IsBlank-IsStart c b s = ground arith

IsFormula-head : (c : ℕ) (s : Text) → IsFormula (c ∷ s) → IsStart c ⊎ (IsBlank c × IsFormula s)
IsFormula-head _ _ (starts c s h) = inl h
IsFormula-head _ _ (blank c s h f) = inr (h, f)

IsFormula-cases :
    (v : Text)
    → ((spreadsheet_formula v ≡ true) × IsFormula v)
      ⊎ ((spreadsheet_formula v ≡ false) × (¬ IsFormula v))
unfolding spreadsheet_formula trim_left
IsFormula-cases [] = inr (refl, λ f. elim f [ ])
IsFormula-cases (c ∷ s) = elim (IsBlank-cases c) [
  | inl (e, b) ↦ elim (IsFormula-cases s) [
    | inl (is, f) ↦ inl (rw (e, spreadsheet_formula) is, blank c s b f)
    | inr (is, n) ↦ inr (
      rw (e, spreadsheet_formula) is,
      λ f. elim (IsFormula-head c s f) [ inl h ↦ IsBlank-IsStart c b h | inr (_, g) ↦ n g ],
    )
  ]
  | inr (e, n) ↦ elim (IsStart-cases c) [
    | inl (is, h) ↦ inl (rw (e, spreadsheet_formula) is, starts c s h)
    | inr (is, m) ↦ inr (
      rw (e, spreadsheet_formula) is,
      λ f. elim (IsFormula-head c s f) [ inl h ↦ m h | inr (b, _) ↦ n b ],
    )
  ]
]

protected-Guarded : (u : Text) → Guarded u (protected u)
protected-Guarded u = elim (IsFormula-cases u) [
  | inl (e, f) ↦ inl (f, rw e refl)
  | inr (e, n) ↦ inr (n, rw e refl)
]

protected-GuardedRow : (us : List Text) → GuardedRow us (map protected us)
protected-GuardedRow [] = tt
protected-GuardedRow (u ∷ us) = (protected-Guarded u, protected-GuardedRow us)

Guarded-IsFormula : (u v : Text) → Guarded u v → ¬ IsFormula v
Guarded-IsFormula u v (inl (f, e)) g = quoted (subst IsFormula e g)
  where
    quoted : IsFormula (b'\'' ∷ u) → ⊥
    quoted h = elim (IsFormula-head b'\'' u h) [
      | inl s ↦ absurd (ground arith)
      | inr (b, _) ↦ absurd (ground arith)
    ]
Guarded-IsFormula u v (inr (n, e)) g = n (subst IsFormula e g)

GuardedRow-IsFormula : (us vs : List Text) → GuardedRow us vs → All (λ v. ¬ IsFormula v) vs
GuardedRow-IsFormula [] [] h = tt
GuardedRow-IsFormula [] (v ∷ vs) h = absurd h
GuardedRow-IsFormula (u ∷ us) [] h = absurd h
GuardedRow-IsFormula (u ∷ us) (v ∷ vs) (g, h) =
    (Guarded-IsFormula u v g, GuardedRow-IsFormula us vs h)

-- In a protected row no cell is a formula: none has `=`, `+`, `-` or `@` as its first rune after
-- spaces, tabs and ends of lines. It has the cells of the unprotected row, with an apostrophe before
-- each that is a formula, and the others as they are.
pub export_record_lem :
    (contact : Contact)
    → All (λ v. ¬ IsFormula v) (export_record contact true)
      × GuardedRow (export_record contact false) (export_record contact true)
unfolding export_record
export_record_lem contact =
    let row = protected-GuardedRow (columns_of contact) in
    (GuardedRow-IsFormula (columns_of contact) (map protected (columns_of contact)) row, row)
