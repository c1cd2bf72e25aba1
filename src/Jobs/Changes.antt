-- ===== src/Jobs/Changes.antt =====
-- An update of one row of durable_jobs.
use plaiflowapp.Base.{
  Bool, true, false, false≢true, ◌≡◌, sym, subst, ◌∙◌, inl, inr, List, String, str_eq, eq_iff,
  Bool-cases, In,
}
use plaiflowapp.Sql.{update_where}
use plaiflowapp.Sql.Rows.{All-update_where, In-update_where_miss, In-update_where_hit}
use plaiflowapp.Jobs.{Job}
use plaiflowapp.Jobs.Rows.{IsConsistent, IsCoherent, unique_row, UniqueIds-update_where}

-- Two rows with one id.
pub same_at :
    (k : String) (x r : Job) → str_eq x.id k ≡ true → str_eq r.id k ≡ true → str_eq x.id r.id ≡ true
same_at k x r h e = (eq_iff _ _).1 ((eq_iff x.id k).0 h ∙ sym ((eq_iff r.id k).0 e))

-- What one command may do to the table: it changes the row `r` to `r'` and no other.
pub record Changes (rows : List Job) (r r' : Job) (rows' : List Job) : Type 0 where
  pub changed : In r' rows'
  pub same_id : r'.id ≡ r.id
  pub others : (q : Job) → In q rows → str_eq q.id r.id ≡ false → In q rows'
  pub still : IsCoherent rows'

module _ {rows : List Job} (table : IsCoherent rows) {r : Job} (i : In r rows) where
  pub update_at-Changes :
      (p : Job → Bool) (f : Job → Job)
      → ((x : Job) → p x ≡ true → str_eq x.id r.id ≡ true)
      → p r ≡ true
      → ((x : Job) → (f x).id ≡ x.id)
      → IsConsistent (f r)
      → Changes rows r (f r) (update_where p f rows)
  update_at-Changes p f at_id hit ids row = record {
    changed = In-update_where_hit p f rows hit i;
    same_id = ids r;
    others = λ q j n. In-update_where_miss p f rows (missed q n) j;
    still = record {
      valid =
          All-update_where p f rows
            (λ x j hx _.
              subst (λ y. IsConsistent (f y)) (sym (unique_row rows table.unique j i (at_id x hx)))
                row)
            table.valid;
      unique = UniqueIds-update_where p f rows ids table.unique;
    };
  }
    where
      missed : (q : Job) → str_eq q.id r.id ≡ false → p q ≡ false
      missed q n = elim (Bool-cases (p q)) [
        | inl hx ↦ absurd (false≢true (sym n ∙ at_id q hx))
        | inr m ↦ m
      ]
