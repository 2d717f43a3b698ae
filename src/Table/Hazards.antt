-- ===== src/Table/Hazards.antt =====
-- Where src/infrastructure/db/table/Table.cpp faults: a row that takes another's place is freed and
-- then read, and a deleted row keeps its key.
use tarracsh.Prelude.{ℕ, ◌≡◌, refl, ap, ◌∙◌, false, List, get_elem?, some, ◌==◌}
use tarracsh.Outcome.{ok, fault, ◌>>=◌}
use tarracsh.ClassFile.Pool.{Bytes}
use tarracsh.Table.{
  Row, Table, find_by_key, lookup, internal_update, update, add_or_update, add, delete_row,
  internal_add, free_row, store,
}
use tarracsh.Table.Contents.{ApartFrom, same_sym, Represents}
use tarracsh.Table.Adding.{same_refl}
use tarracsh.Table.Changing.{ApartFrom-get, Stored-At, delete_row-at}
use tarracsh.Table.Lookups.{find_by_key-Represents}

module _ (get_key : Bytes → Bytes) where
  -- The row that is found goes over to the table's own; the caller's is freed.
  internal_update-freed :
      (t : Table) (p dest : ℕ) (x old : Row) (key : Bytes)
      → lookup key t.rows ≡ some dest
      → (dest == p) ≡ false
      → t.row_at dest ≡ some old
      → t.row_at p ≡ some x
      → internal_update p key t
        ≡ ok (
            free_row p
              (store dest (record x { id = old.id }) (store p (record x { id = old.id }) t)))
  unfolding internal_update
  internal_update-freed t p dest x old key l o d h = rw (l, o, d, h) refl

  -- Updating with a row of the caller's own, under a key that the table has, reads the row after it was freed.
  pub update-other :
      (t : Table) (rs : List Row) (n p dest : ℕ) (r x : Row)
      → Represents get_key t rs
      → get_elem? t.auto_increment_index n ≡ some dest
      → get_elem? rs n ≡ some r
      → t.row_at p ≡ some x
      → ApartFrom p t.auto_increment_index
      → get_key x.columns ≡ get_key r.columns
      → (update get_key p t ≡ fault) × (add_or_update get_key p t ≡ fault)
  unfolding update add_or_update find_by_key
  update-other t rs n p dest r x s e l h a k =
      let found : lookup (get_key x.columns) t.rows ≡ some dest =
        ap (λ key. lookup key t.rows) k ∙ (find_by_key-Represents get_key t rs n r s l ∙ e) in
      let at = Stored-At t 0 t.auto_increment_index rs n dest s.stored s.apart e in
      let freed =
        internal_update-freed t p dest x at.row (get_key x.columns) found
          (ApartFrom-get p dest n t.auto_increment_index a e) at.is_there h in
      (rw (h, freed, same_refl p) refl, rw (h, found, freed, same_refl p) refl)

  -- After a row was deleted, adding one with its key fails.
  pub add-deleted :
      (t : Table) (rs : List Row) (n p q : ℕ) (r x : Row)
      → Represents get_key t rs
      → get_elem? t.auto_increment_index n ≡ some p
      → get_elem? rs n ≡ some r
      → t.row_at q ≡ some x
      → ApartFrom q t.auto_increment_index
      → get_key x.columns ≡ get_key r.columns
      → (delete_row n t >>= λ (done, t'). add get_key q t') ≡ fault
  unfolding add internal_add find_by_key
  add-deleted t rs n p q r x s e l h a k =
      let (old, listed, deleted, s') = delete_row-at get_key t rs n p s e in
      let found : lookup (get_key x.columns) t.rows ≡ some p =
        ap (λ key. lookup key t.rows) k ∙ (find_by_key-Represents get_key t rs n r s l ∙ e) in
      rw (deleted, same_sym q p (ApartFrom-get q p n t.auto_increment_index a e), h, found) refl
