-- ===== src/Table/Adding.antt =====
-- `add` of src/infrastructure/db/table/Table.cpp as putting a row behind a list of rows.
use tarracsh.Prelude.{
  All-append, ℕ, ◌<◌, ◌≡◌, refl, ap, sym, ◌∙◌, Bool, true, false, List, [], ◌∷◌, ◌++◌, length,
  get_elem?, some, ◌==◌, arith, subst,
}
use tarracsh.Outcome.{ok, ◌>>=◌}
use tarracsh.ClassFile.Pool.{Bytes}
use tarracsh.Table.{
  Row, Table, DirtyType, is_new, lookup, store, load, there, internal_add, add, mark,
}
use tarracsh.Table.Contents.{
  every, ApartFrom, Stored, has_row, Represents, Stored-same, store-ApartFrom, Stored-append,
  Stored-length, keyed-append, Apart-append, NewKeys-append, lookup-keyed,
}

pub same_refl : (p : ℕ) → (p == p) ≡ true
same_refl p = ground arith

-- The first row is read where there is one.
opening_row :
    (t : Table) (ps : List ℕ) (rs : List Row) (p : ℕ) (r : Row)
    → Stored t 0 (ps ++ (p ∷ [])) (rs ++ (r ∷ []))
    → (there (get_elem? (ps ++ (p ∷ [])) 0) >>= λ first. load first t >>= λ row. ok t) ≡ ok t
opening_row t [] [] p r (a, s) = rw a refl
opening_row t [] (x ∷ rs) p r (a, s) = rw a refl
opening_row t (q ∷ ps) [] p r (a, s) = rw a refl
opening_row t (q ∷ ps) (x ∷ rs) p r (a, s) = rw a refl

module _ (get_key : Bytes → Bytes) (t : Table) (p : ℕ) (r : Row) where
  abbrev numbered : Row
  numbered = record r { id = length t.auto_increment_index }

  -- The table with the row behind the others.
  abbrev pub extended : Table
  extended = store p numbered (record t {
    rows = t.rows ++ ((get_key r.columns, p) ∷ []);
    auto_increment_index = t.auto_increment_index ++ (p ∷ []);
  })

  module _ (rs : List Row) (s : Represents get_key t rs) (there_is : t.row_at p ≡ some r)
      (fresh : ApartFrom p t.auto_increment_index) (old : p < t.next_row)
      (new : has_row get_key (get_key r.columns) rs ≡ false) where
    extended-Stored : Stored extended 0 (t.auto_increment_index ++ (p ∷ [])) (rs ++ (numbered ∷ []))
    extended-Stored =
        Stored-append extended 0 t.auto_increment_index rs p numbered
          (Stored-same t extended 0 t.auto_increment_index rs
            (store-ApartFrom t p numbered t.auto_increment_index fresh) s.stored)
          (rw (same_refl p) refl) (omega arith)

    pub internal_add-extended : internal_add p (get_key r.columns) t ≡ ok extended
    unfolding internal_add
    internal_add-extended =
        rw
          (
            ap (lookup (get_key r.columns)) s.key_map
                ∙ lookup-keyed get_key (get_key r.columns) t.auto_increment_index rs new,
            there_is,
          )
          (opening_row extended t.auto_increment_index rs p numbered extended-Stored)

    pub extended-Represents : Represents get_key extended (rs ++ (numbered ∷ []))
    extended-Represents = record {
      stored = extended-Stored;
      key_map =
          ap (λ m. m ++ ((get_key r.columns, p) ∷ [])) s.key_map
          ∙ sym (keyed-append get_key t 0 t.auto_increment_index rs p numbered s.stored);
      new_keys = NewKeys-append get_key [] rs numbered s.new_keys new;
      apart = Apart-append t.auto_increment_index p s.apart fresh;
      allocated = All-append (λ q. q < t.next_row) t.auto_increment_index p s.allocated old;
    }

    -- What `add` leaves: the id is the row's place, and it is marked as new.
    pub add-extended :
        add get_key p t
        ≡ ok (
          length t.auto_increment_index,
          record extended {
            dirty_rows = mark (length t.auto_increment_index) is_new t.dirty_rows;
            is_dirty = true;
          },
        )
    unfolding add
    add-extended = rw (there_is, internal_add-extended, same_refl p) refl

pub Represents-marked :
    (get_key : Bytes → Bytes) (t : Table) (rs : List Row) (dirty : List (ℕ × DirtyType)) (b : Bool)
    → Represents get_key t rs
    → Represents get_key (record t { dirty_rows = dirty; is_dirty = b }) rs
Represents-marked get_key t rs dirty b s = record {
  stored =
      Stored-same t (record t { dirty_rows = dirty; is_dirty = b }) 0 t.auto_increment_index rs
        (every _ t.auto_increment_index (λ q. refl)) s.stored;
  key_map = s.key_map;
  new_keys = s.new_keys;
  apart = s.apart;
  allocated = s.allocated;
}

-- Adding a row whose key no other has gives it the next id and puts it behind the rows that are there.
pub add-Represents :
    (get_key : Bytes → Bytes) (t : Table) (rs : List Row) (p : ℕ) (r : Row)
    → Represents get_key t rs
    → t.row_at p ≡ some r
    → ApartFrom p t.auto_increment_index
    → p < t.next_row
    → has_row get_key (get_key r.columns) rs ≡ false
    → (t' : Table) × (add get_key p t ≡ ok (length rs, t'))
      × Represents get_key t' (rs ++ (record r { id = length rs } ∷ []))
add-Represents get_key t rs p r s a f o n =
    subst
      (λ k.
        (t' : Table) × (add get_key p t ≡ ok (k, t'))
        × Represents get_key t' (rs ++ (record r { id = k } ∷ [])))
      (Stored-length t 0 t.auto_increment_index rs s.stored)
      (
        _,
        add-extended get_key t p r rs s a f o n,
        Represents-marked get_key (extended get_key t p r) _ _ true
            (extended-Represents get_key t p r rs s a f o n),
      )
