-- ===== src/Examples/Tables.antt =====
-- The theorems on tables, at concrete inputs.
use tarracsh.Prelude.{
  ℕ, ◌+◌, ◌≡◌, refl, Bool, true, List, [], ◌∷◌, ◌++◌, Option, none, some, codes, arith,
}
use tarracsh.Outcome.{ok, fault}
use tarracsh.ClassFile.Pool.{Bytes}
use tarracsh.Table.{
  Row, Table, TableFile, is_new, add, internal_add, for_each, update, add_or_update, load, get_row,
  find_by_key, read, write,
}
use tarracsh.Table.Contents.{Represents}
use tarracsh.Table.Adding.{extended, add-Represents}
use tarracsh.Table.Reading.{allocated_row, new_table}
use tarracsh.Table.Lookups.{live, visit, for_each-live}
use tarracsh.Table.Hazards.{update-other}
use tarracsh.Table.Safety.{get_row-Reachable}
use tarracsh.Table.Validity.{State}
use tarracsh.Table.History.{Reachable, Reachable-reopens}

abbrev columns_key : Bytes → Bytes
columns_key columns = columns

-- A row as a caller fills it, with an id that is put right when the row is added.
abbrev row_a : Row
row_a = record { flags = 0; id = 7; columns = codes "A" }

abbrev first_a : Row
first_a = record row_a { id = 0 }

abbrev given : Table
given = allocated_row row_a new_table

abbrev one_row : Table
one_row = record (extended columns_key given 0 row_a) {
  dirty_rows = (0, is_new) ∷ [];
  is_dirty = true;
}

one_row-Represents : Represents columns_key one_row (first_a ∷ [])
one_row-Represents = record {
  stored = (refl, (refl, tt));
  key_map = refl;
  new_keys = (refl, tt);
  apart = (tt, tt);
  allocated = (omega arith, tt);
}

-- Another row with the same key, which the caller holds.
abbrev with_other : Table
with_other = allocated_row row_a one_row

with_other-Represents : Represents columns_key with_other (first_a ∷ [])
with_other-Represents = record {
  stored = (refl, (refl, tt));
  key_map = refl;
  new_keys = (refl, tt);
  apart = (tt, tt);
  allocated = (omega arith, tt);
}

given-Represents : Represents columns_key given []
given-Represents = record { stored = tt; key_map = refl; new_keys = tt; apart = tt; allocated = tt }

add-given : add columns_key 0 given ≡ ok (0, one_row)
unfolding add internal_add
add-given = refl

add-Represents_example :
    (t' : Table) × (add columns_key 0 given ≡ ok (0, t'))
    × Represents columns_key t' ([] ++ (record row_a { id = 0 } ∷ []))
add-Represents_example =
    add-Represents columns_key given [] 0 row_a given-Represents refl tt (omega arith) refl

abbrev count_rows : ℕ → Row → Bool × ℕ
count_rows n r = (true, n + 1)

for_each-live_example :
    for_each count_rows one_row.auto_increment_index 0 one_row
    ≡ ok (visit count_rows (live count_rows (first_a ∷ [])) 0)
for_each-live_example =
    for_each-live count_rows columns_key one_row (first_a ∷ []) 0 one_row-Represents

update-other_example :
    (update columns_key 1 with_other ≡ fault) × (add_or_update columns_key 1 with_other ≡ fault)
update-other_example =
    update-other columns_key with_other (first_a ∷ []) 0 1 0 first_a row_a with_other-Represents
      refl refl refl (refl, tt) refl

abbrev one_row_state : State
one_row_state = record { file = none; table = one_row }

Reachable-one_row : Reachable columns_key one_row_state
Reachable-one_row =
    Reachable.add_row (record { file = none; table = given }) 0 0 one_row
      (Reachable.allocate (record { file = none; table = new_table }) row_a Reachable.start) tt
      (omega arith) add-given

Reachable-reopens_example :
    (rs : List Row) × Represents columns_key one_row rs
    × ((file : Option TableFile) × (t : Table) × (t' : Table) × (write none one_row ≡ ok (file, t))
        × (read columns_key file new_table ≡ ok (true, t'))
        × Represents columns_key t' rs)
Reachable-reopens_example = Reachable-reopens columns_key one_row_state Reachable-one_row

got_row : get_row 0 one_row ≡ ok 0
unfolding get_row
got_row = refl

get_row-Reachable_example :
    (r : Row) × (load 0 one_row ≡ ok r)
    × (r.id ≡ 0)
    × (find_by_key (columns_key r.columns) one_row ≡ some 0)
get_row-Reachable_example =
    get_row-Reachable columns_key one_row_state 0 0 Reachable-one_row got_row
