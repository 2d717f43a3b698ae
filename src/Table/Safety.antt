-- ===== src/Table/Safety.antt =====
-- The rows that src/infrastructure/db/table/Table.cpp hands out.
use tarracsh.Prelude.{ℕ, ◌≡◌, ap, ◌∙◌, Option, some, none, get_elem?, arith}
use tarracsh.Outcome.{ok}
use tarracsh.ClassFile.Pool.{Bytes}
use tarracsh.Table.{Row, there, load, get_row, find_by_key}
use tarracsh.Table.Changing.{Stored-At}
use tarracsh.Table.Lookups.{find_by_key-Represents}
use tarracsh.Table.Validity.{State}
use tarracsh.Table.History.{Reachable, Reachable-Valid}

-- Of a table that began empty with no file, however rows were allocated, added under new keys, deleted
-- and changed in place, and the table written and read again: a row that is got by its id is there, has
-- that id, and is found by its key.
pub get_row-Reachable :
    (get_key : Bytes → Bytes) (s : State) (n p : ℕ)
    → Reachable get_key s
    → get_row n s.table ≡ ok p
    → (r : Row) × (load p s.table ≡ ok r)
      × (r.id ≡ n)
      × (find_by_key (get_key r.columns) s.table ≡ some p)
unfolding get_row
get_row-Reachable get_key s n p h g =
    let (rs, v) = Reachable-Valid get_key s h in
    let e = there_inv (get_elem? s.table.auto_increment_index n) p g in
    let a = Stored-At s.table 0 s.table.auto_increment_index rs n p v.rows.stored v.rows.apart e in
    (
      a.row,
      ap there a.is_there,
      omega (arith, a.has_id),
      find_by_key-Represents get_key s.table rs n a.row v.rows a.listed ∙ e,
    )
  where
    there_inv : (o : Option ℕ) (p : ℕ) → there o ≡ ok p → o ≡ some p
    there_inv (some q) p e = cc
    there_inv none p e = cc
