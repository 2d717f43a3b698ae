-- ===== src/Table/History.antt =====
-- The operations of src/infrastructure/db/table/Table.cpp in any order, and the file that they keep.
use tarracsh.Prelude.{
  ℕ, ◌<◌, ◌≡◌, refl, ap, ap₂, sym, ◌∙◌, Bool, true, List, [], Option, none, some, get_elem?, subst,
}
use tarracsh.Outcome.{Outcome, ok}
use tarracsh.ClassFile.Pool.{Bytes}
use tarracsh.Table.{
  Row, Table, TableFile, table_signature, add, delete_row, update_in_place, write, read,
}
use tarracsh.Table.Contents.{ApartFrom, Represents}
use tarracsh.Table.Reading.{
  allocated_row, allocated_row-Represents, new_table, new_table-Represents, Stored-Numbered,
  read-Represents,
}
use tarracsh.Table.InPlace.{update_in_place-Valid}
use tarracsh.Table.Reopened.{reopened-Valid}
use tarracsh.Table.Validity.{State, Valid, add-Valid, delete-Valid, write-Valid}

state_inj :
    (s s' : State)
    → ◌≡◌ {A = Outcome (Option TableFile × Table)} (ok (s.file, s.table)) (ok (s'.file, s'.table))
    → s ≡ s'
state_inj s s' h = ap₂ (λ f t. record { file = f; table = t }) (first h) (second h)
  where
    first :
        ◌≡◌ {A = Outcome (Option TableFile × Table)} (ok (s.file, s.table)) (ok (s'.file, s'.table))
        → s.file ≡ s'.file
    first h = cc

    second :
        ◌≡◌ {A = Outcome (Option TableFile × Table)} (ok (s.file, s.table)) (ok (s'.file, s'.table))
        → s.table ≡ s'.table
    second h = cc

module _ (get_key : Bytes → Bytes) where
  -- What a new table can come to, with no file at first: rows are allocated and filled, added, deleted
  -- and changed in place, and the table is written and read again. A caller adds no row that the table
  -- has already. `addOrUpdate` of a row under a new key is `add`; under a known key it fails, as `update`
  -- with another row does (Hazards), so neither comes to another table.
  pub data Reachable : State → Type 0 where
    start : Reachable (record { file = none; table = new_table })
    allocate :
        (s : State) (r : Row)
        → Reachable s
        → Reachable (record s { table = allocated_row r s.table })
    add_row :
        (s : State) (p i : ℕ) (t : Table)
        → Reachable s
        → ApartFrom p s.table.auto_increment_index
        → p < s.table.next_row
        → add get_key p s.table ≡ ok (i, t)
        → Reachable (record s { table = t })
    delete :
        (s : State) (id : ℕ) (b : Bool) (t : Table)
        → Reachable s
        → delete_row id s.table ≡ ok (b, t)
        → Reachable (record s { table = t })
    change :
        (s : State) (n p : ℕ) (r x : Row) (t : Table)
        → Reachable s
        → get_elem? s.table.auto_increment_index n ≡ some p
        → s.table.row_at p ≡ some r
        → x.id ≡ r.id
        → get_key x.columns ≡ get_key r.columns
        → update_in_place (λ t'. ok (p, x)) s.table ≡ ok t
        → Reachable (record s { table = t })
    save :
        (s : State) (file : Option TableFile) (t : Table)
        → Reachable s
        → write s.file s.table ≡ ok (file, t)
        → Reachable (record { file = file; table = t })
    reopen :
        (s : State) (file : Option TableFile) (t t' : Table) (b : Bool)
        → Reachable s
        → write s.file s.table ≡ ok (file, t)
        → read get_key file new_table ≡ ok (b, t')
        → Reachable (record { file = file; table = t' })

  pub Reachable-Valid : (s : State) → Reachable s → (rs : List Row) × Valid get_key s rs
  Reachable-Valid s start = (
    [],
    record { rows = new_table-Represents get_key; synced = tt; clean = λ c. refl; signed = refl },
  )
  Reachable-Valid s (allocate s₀ r h) =
      let (rs, v) = Reachable-Valid s₀ h in
      (
        rs,
        record {
          rows = allocated_row-Represents get_key r s₀.table rs v.rows;
          synced = v.synced;
          clean = v.clean;
          signed = v.signed;
        },
      )
  Reachable-Valid s (add_row s₀ p i t h a o e) =
      let (rs, v) = Reachable-Valid s₀ h in add-Valid get_key s₀ rs p i t v a o e
  Reachable-Valid s (delete s₀ n b t h e) =
      let (rs, v) = Reachable-Valid s₀ h in delete-Valid get_key s₀ rs n b t v e
  Reachable-Valid s (change s₀ n p r x t h e a i k u) =
      let (rs, v) = Reachable-Valid s₀ h in
      update_in_place-Valid get_key s₀ rs n p r x t v e a i k u
  Reachable-Valid s (save s₀ file t h e) =
      let (rs, v) = Reachable-Valid s₀ h in
      let (s', w, v', f) = write-Valid get_key s₀ rs v in
      (
        rs,
        subst (λ x. Valid get_key x rs)
            (state_inj s' (record { file = file; table = t }) (sym w ∙ e)) v',
      )
  Reachable-Valid s (reopen s₀ file t t' b h w e) =
      let (rs, v) = Reachable-Valid s₀ h in (rs, reopened-Valid get_key s₀ rs file t t' b v w e)

  -- Of a table that began empty with no file, however rows were allocated, added under new keys, deleted
  -- and changed in place, and the table written and read again from its file: writing it succeeds, and
  -- reading that file gives a table of the same rows.
  pub Reachable-reopens :
      (s : State)
      → Reachable s
      → (rs : List Row) × Represents get_key s.table rs
        × ((file : Option TableFile) × (t : Table) × (t' : Table) × (write s.file s.table
              ≡ ok (file, t))
            × (read get_key file new_table ≡ ok (true, t'))
            × Represents get_key t' rs)
  Reachable-reopens s h =
      let (rs, v) = Reachable-Valid s h in
      let (s', w, v', f) = write-Valid get_key s rs v in
      let (t', e, r) =
        read-Represents get_key (record { signature = table_signature; rows = rs }) refl
          v.rows.new_keys
          (Stored-Numbered s.table 0 s.table.auto_increment_index rs v.rows.stored) in
      (rs, v.rows, (s'.file, s'.table, t', w, ap (λ o. read get_key o new_table) f ∙ e, r))
