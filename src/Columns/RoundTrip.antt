-- ===== src/Columns/RoundTrip.antt =====
-- Writing a column's name and reading it back.
use plaiflowapp.Base.{
  ℕ, zero, suc, ◌+◌, ◌-◌, ◌*◌, ◌/◌, ◌%◌, ◌^◌, ◌<◌, ◌||◌, ◌≡◌, refl, ap, ◌∙◌, ◌⊎◌, inl, inr, true,
  false, [], ◌∷◌, ◌++◌, some, arith, ℤ, pos, negsuc, sub_ℕ, Text, ltb, ◌==◌,
}
use plaiflowapp.Columns.{
  column_loop, spreadsheet_column, name_loop, column_name, int_mod, signed, scan_letters,
  cell_column,
}

-- What stands behind the letters of a cell reference.
abbrev pub EndsLetters : Text → Type 0
EndsLetters [] = Unit
EndsLetters (c ∷ s) = (ltb c b'A' || ltb b'Z' c) ≡ true

-- One letter read.
scan_letters_letter :
    (d : ℕ) (s : Text) (column letters : ℕ)
    → d < 26
    → scan_letters ((b'A' + d) ∷ s) column letters
      ≡ scan_letters s ((column * 26 + (d + 1)) % int_mod) (letters + 1)
unfolding scan_letters
scan_letters_letter d s column letters h = ground arith

-- The letters written in front of `acc` are read as the number of rounds, modulo the word.
column_loop_scan :
    (fuel n : ℕ) (acc rest : Text)
    → n < fuel
    → (name : Text) × (k : ℕ) × (column_loop fuel (sub_ℕ n 1) acc ≡ some name)
      × (scan_letters (name ++ rest) 0 0 ≡ scan_letters (acc ++ rest) (n % int_mod) k)
      × ((n ≡ 0) ⊎ (0 < k))
unfolding column_loop
column_loop_scan zero n acc rest h = absurd (omega arith)
column_loop_scan (suc fuel) zero acc rest h = (acc, 0, refl, refl, inl refl)
column_loop_scan (suc fuel) (suc m) acc rest h =
    let (name, k, made, read, _) =
      column_loop_scan fuel (m / 26) ((b'A' + m % 26) ∷ acc) rest (omega arith) in
    let first : sub_ℕ (suc m) 1 ≡ pos m = ground arith in
    (
      name,
      k + 1,
      rw first made,
      read
          ∙ scan_letters_letter (m % 26) (acc ++ rest) (m / 26 % int_mod) k (omega arith)
          ∙ ap (λ x. scan_letters (acc ++ rest) x (k + 1)) (omega arith),
      inr (omega arith),
    )

scan_letters_end :
    (rest : Text) (column letters : ℕ)
    → EndsLetters rest
    → scan_letters rest column letters ≡ (column, letters)
unfolding scan_letters
scan_letters_end [] column letters h = refl
scan_letters_end (c ∷ rest) column letters h = rw h

-- The name of any number is read back as that number's 64-bit pattern.
cell_column-spreadsheet_column_mod :
    (index : ℕ) (rest : Text)
    → EndsLetters rest
    → (name : Text) × (spreadsheet_column index ≡ some name)
      × (cell_column (name ++ rest) ≡ signed (index % int_mod))
unfolding spreadsheet_column cell_column
cell_column-spreadsheet_column_mod index rest ends =
    let (name, k, made, read, some_letters) =
      column_loop_scan (index + 2) (index + 1) [] rest (omega arith) in
    let first : sub_ℕ (index + 1) 1 ≡ pos index = ground arith in
    let letters : 0 < k = omega arith in
    let result = read ∙ scan_letters_end rest ((index + 1) % int_mod) k ends in
    let back : ((index + 1) % int_mod + int_mod - 1) % int_mod ≡ index % int_mod = omega arith in
    let nonzero : (k == 0) ≡ false = ground arith in
    (name, rw first at made, rw (result, nonzero, back))

-- Every column index of an `int` has a name, and a cell reference that begins with this name and
-- goes on with something other than a capital letter is read back as that index.
pub cell_column-spreadsheet_column :
    (index : ℕ) (rest : Text)
    → index < 2 ^ 63
    → EndsLetters rest
    → (name : Text) × (spreadsheet_column index ≡ some name)
      × (cell_column (name ++ rest) ≡ pos index)
cell_column-spreadsheet_column index rest small ends =
    let (name, made, read) = cell_column-spreadsheet_column_mod index rest ends in
    (name, made, read ∙ ground arith)

-- The two writers give one name to each column.
pub column_name-eq-spreadsheet_column : (index : ℕ) → column_name index ≡ spreadsheet_column index
unfolding column_name spreadsheet_column
column_name-eq-spreadsheet_column index = same (index + 2) (pos index) []
  where
    same : (fuel : ℕ) (i : ℤ) (acc : Text) → name_loop fuel i acc ≡ column_loop fuel i acc
    same zero i acc = refl
    same (suc fuel) (negsuc n) acc = refl
    same (suc fuel) (pos n) acc = same fuel (sub_ℕ (n / 26) 1) ((b'A' + n % 26) ∷ acc)
