-- ===== src/Columns.antt =====
-- `spreadsheetColumn` of api/internal/work/work.go, and `columnName` and `cellColumn` of
-- api/internal/business/spreadsheet.go.
pub mod RoundTrip
use plaiflowapp.Base.{
  ℕ, zero, suc, ◌+◌, ◌-◌, ◌*◌, ◌/◌, ◌%◌, ◌^◌, ◌||◌, List, [], ◌∷◌, ◌++◌, Option, none, some, ℤ, pos,
  negsuc, sub_ℕ, Text, ltb, ◌==◌, if◌then◌else◌,
}

-- `for index >= 0 { … }`; `none` means that the fuel ran out.
pub column_loop : ℕ → ℤ → Text → Option Text
column_loop zero index result = none
column_loop (suc fuel) (negsuc n) result = some result
column_loop (suc fuel) (pos index) result =
    column_loop fuel (sub_ℕ (index / 26) 1) ((b'A' + index % 26) ∷ result)

-- A call with a non-negative index makes at most `index + 1` rounds.
unfoldable pub spreadsheet_column : ℕ → Option Text
unfolding column_loop
spreadsheet_column index = column_loop (index + 2) (pos index) []

-- The same loop over the variable `name`.
pub name_loop : ℕ → ℤ → Text → Option Text
name_loop zero index name = none
name_loop (suc fuel) (negsuc n) name = some name
name_loop (suc fuel) (pos index) name =
    name_loop fuel (sub_ℕ (index / 26) 1) ((b'A' + index % 26) ∷ name)

unfoldable pub column_name : ℕ → Option Text
unfolding name_loop
column_name index = name_loop (index + 2) (pos index) []

-- An `int` is 64 bits wide: `column` is kept as its bit pattern.
abbrev pub int_mod : ℕ
int_mod = 2 ^ 64

-- The integer that a 64-bit pattern stands for.
abbrev pub signed : ℕ → ℤ
signed x = if ltb x (2 ^ 63) then pos x else sub_ℕ x int_mod

-- The `for` loop of `cellColumn`: `column` and `letters` at the end.
pub scan_letters : Text → ℕ → ℕ → ℕ × ℕ
scan_letters [] column letters = (column, letters)
scan_letters (c ∷ s) column letters =
    let rest = scan_letters s ((column * 26 + (c - b'A' + 1)) % int_mod) (letters + 1) in
    if ltb c b'A' || ltb b'Z' c then (column, letters) else rest

unfoldable pub cell_column : Text → ℤ
unfolding scan_letters
cell_column reference =
    let (column, letters) = scan_letters reference 0 0 in
    if letters == 0 then negsuc 0 else signed ((column + int_mod - 1) % int_mod)
