-- ===== src/Table/InPlace.antt =====
-- `updateInPlace` of src/infrastructure/db/table/Table.cpp and what is kept of a table and its file.
use tarracsh.Prelude.{ℕ, ◌≡◌, ap, sym, ◌∙◌, List, get_elem?, some, arith, subst}
use tarracsh.Outcome.{ok}
use tarracsh.ClassFile.Pool.{Bytes}
use tarracsh.Table.{Row, Table, store, touch, opened, update_in_place}
use tarracsh.Table.Keys.{replace, some_inj}
use tarracsh.Table.Adding.{Represents-marked}
use tarracsh.Table.Changing.{Stored-At, store-Represents}
use tarracsh.Table.Marks.{touched-replace}
use tarracsh.Table.Validity.{State, Valid}

module _ (get_key : Bytes → Bytes) where
  changed-Valid :
      (s : State) (rs : List Row) (n p : ℕ) (r x : Row)
      → Valid get_key s rs
      → get_elem? s.table.auto_increment_index n ≡ some p
      → get_elem? rs n ≡ some r
      → x.id ≡ n
      → get_key x.columns ≡ get_key r.columns
      → Valid get_key (record s { table = touch n (store p x s.table) }) (replace n x rs)
  changed-Valid s rs n p r x v e l i k = record {
    rows =
        Represents-marked get_key (store p x s.table) (replace n x rs) _ _
          (store-Represents get_key s.table rs n p r x v.rows e l i k);
    synced = touched-replace n s.table.dirty_rows rs (opened s.file).rows x v.synced;
    clean = λ c. cc;
    signed = v.signed;
  }

  -- A row of the table is changed, but for its id and key.
  pub update_in_place-Valid :
      (s : State) (rs : List Row) (n p : ℕ) (r x : Row) (t : Table)
      → Valid get_key s rs
      → get_elem? s.table.auto_increment_index n ≡ some p
      → s.table.row_at p ≡ some r
      → x.id ≡ r.id
      → get_key x.columns ≡ get_key r.columns
      → update_in_place (λ t. ok (p, x)) s.table ≡ ok t
      → (rs' : List Row) × Valid get_key (record s { table = t }) rs'
  unfolding update_in_place
  update_in_place-Valid s rs n p r x t v e h i k u =
      let a =
        Stored-At s.table 0 s.table.auto_increment_index rs n p v.rows.stored v.rows.apart e in
      let same = some_inj a.row r (sym a.is_there ∙ h) in
      let id : x.id ≡ n = omega (arith, i, ap {B = ℕ} (λ y. y.id) same, a.has_id) in
      (
        replace n x rs,
        subst (λ y. Valid get_key (record s { table = y }) (replace n x rs))
            (ap (λ m. touch m (store p x s.table)) (sym id)
              ∙ table_inj (touch x.id (store p x s.table)) t u)
            (changed-Valid s rs n p a.row x v e a.listed id
              (k ∙ ap (λ y. get_key y.columns) (sym same))),
      )
    where
      table_inj : (t t' : Table) → ok t ≡ ok t' → t ≡ t'
      table_inj t t' h = cc
