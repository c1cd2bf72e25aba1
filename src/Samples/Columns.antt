-- ===== src/Samples/Columns.antt =====
-- Column names (api/internal/work/work.go, api/internal/business/spreadsheet.go).
use plaiflowapp.Base.{◌≡◌, refl, ◌++◌, some, arith, pos, negsuc, codes, Text}
use plaiflowapp.Columns.{spreadsheet_column, column_name, cell_column}
use plaiflowapp.Columns.RoundTrip.{cell_column-spreadsheet_column}

last_one_letter : spreadsheet_column 25 ≡ some (codes "Z")
unfolding spreadsheet_column
last_one_letter = refl

first_three_letters : column_name 702 ≡ some (codes "AAA")
unfolding column_name
first_three_letters = refl

no_letters : cell_column (codes "12") ≡ negsuc 0
unfolding cell_column
no_letters = refl

cell_column-spreadsheet_column_example :
    (name : Text) × (spreadsheet_column 701 ≡ some name)
    × (cell_column (name ++ codes "7") ≡ pos 701)
cell_column-spreadsheet_column_example =
    cell_column-spreadsheet_column 701 (codes "7") (omega arith) refl
