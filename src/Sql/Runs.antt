-- ===== src/Sql/Runs.antt =====
-- Sequences of transactions, of which those that fail change nothing.
use plaiflowapp.Base.{◌≡◌, refl, sym, subst, List, [], ◌∷◌, ◌⊎◌, inl, inr}
use plaiflowapp.Sql.{Tx, commit, rollback}

module _ {Op Store Error : Type 0} (exec : Op → Store → Tx Error Store) where
  unfoldable pub perform : Op → Store → Store
  perform op s = elim (exec op s) [ commit s' ↦ s' | rollback e ↦ s ]

  unfoldable pub run : List Op → Store → Store
  run [] s = s
  run (op ∷ ops) s = run ops (perform op s)

  -- A transaction commits, or leaves the store.
  pub perform-cases :
      (op : Op) (s : Store) → (exec op s ≡ commit (perform op s)) ⊎ (perform op s ≡ s)
  unfolding perform
  perform-cases op s = ended_as (exec op s)
    where
      ended_as :
          (o : Tx Error Store)
          → (o ≡ commit (elim o [ commit s' ↦ s' | rollback e ↦ s ]))
            ⊎ (elim o [ commit s' ↦ s' | rollback e ↦ s ] ≡ s)
      ended_as (commit s') = inl refl
      ended_as (rollback e) = inr refl

  pub perform_commit : (op : Op) (s s' : Store) → exec op s ≡ commit s' → perform op s ≡ s'
  unfolding perform
  perform_commit op s s' h = rw (perform, h) refl

  -- What each committed transaction keeps, a run keeps.
  pub run_keeps :
      (P : Store → Type 0)
      → ((op : Op) (s s' : Store) → exec op s ≡ commit s' → P s → P s')
      → (ops : List Op) (s : Store) → P s
      → P (run ops s)
  unfolding run
  run_keeps P keep [] s h = h
  run_keeps P keep (op ∷ ops) s h = run_keeps P keep ops (perform op s) (elim (perform-cases op s) [
    | inl done ↦ keep op s (perform op s) done h
    | inr same ↦ subst P (sym same) h
  ])
