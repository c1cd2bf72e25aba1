-- ===== src/Accounting/Books/Ops.antt =====
-- The commands of api/internal/postgres/accounting.go that write, as one type. The tables of the
-- other components change as those components change them.
use plaiflowapp.Base.{ℕ, Bool, List, String}
use plaiflowapp.Sql.{Tx, commit}
use plaiflowapp.Reviews
use plaiflowapp.Accounting.Books.{
  Vendor, Store, Error, Strings, create_category, set_category_archived, rename_category,
}
use plaiflowapp.Accounting.Books.Rules.{RuleInput, create_rule, retire_rule}
use plaiflowapp.Accounting.Books.Approving.{ApproveInput, approve}

pub data Op : Type 0 where
  creating_category : (user organization id name : String) (now : ℕ) → Op
  archiving : (user organization id : String) (archived : Bool) (now : ℕ) → Op
  renaming : (user organization id name : String) (now : ℕ) → Op
  creating_rule : RuleInput → Op
  retiring_rule : (user organization id : String) (now : ℕ) → Op
  approving : ApproveInput → Op
  elsewhere : Reviews.Store → List Vendor → Op

unfoldable pub exec : Strings → Bool → Op → Store → Tx Error Store
exec st enabled (creating_category user o id name now) s = create_category st user o id name now s
exec st enabled (archiving user o id archived now) s =
    set_category_archived st user o id archived now s
exec st enabled (renaming user o id name now) s = rename_category st user o id name now s
exec st enabled (creating_rule i) s = create_rule i s
exec st enabled (retiring_rule user o id now) s = retire_rule user o id now s
exec st enabled (approving i) s = approve st enabled i s
exec st enabled (elsewhere review vendors) s =
    commit (record s { review = review; vendors = vendors })
