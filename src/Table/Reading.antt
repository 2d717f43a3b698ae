-- ===== src/Table/Reading.antt =====
-- `read` of src/infrastructure/db/table/Table.cpp on a file whose rows have their places as ids.
use tarracsh.Prelude.{
  ℕ, suc, ◌<◌, ◌≡◌, refl, ap, sym, ◌∙◌, true, false, List, [], ◌∷◌, ◌++◌, length, none, some, All,
  length-append, append_assoc, append-nil, ◌==◌, arith, subst,
}
use tarracsh.Outcome.{ok}
use tarracsh.ClassFile.Pool.{Bytes}
use tarracsh.Table.{Row, Table, TableFile, table_signature, store, read_rows, read}
use tarracsh.Table.Contents.{
  ApartFrom, Stored, NewKeys, Represents, Stored-same, store-ApartFrom, Stored-length, every,
}
use tarracsh.Table.Adding.{extended, internal_add-extended, extended-Represents, same_refl}

abbrev pub Numbered : ℕ → List Row → Type 0
Numbered k [] = Unit
Numbered k (r ∷ rs) = (r.id ≡ k) × Numbered (suc k) rs

pub Stored-Numbered :
    (t : Table) (k : ℕ) (ps : List ℕ) (rs : List Row) → Stored t k ps rs → Numbered k rs
Stored-Numbered t k [] [] s = tt
Stored-Numbered t k [] (r ∷ rs) s = absurd s
Stored-Numbered t k (p ∷ ps) [] s = absurd s
Stored-Numbered t k (p ∷ ps) (r ∷ rs) (a, (i, s)) = (i, Stored-Numbered t (suc k) ps rs s)

pub below-ApartFrom : (n : ℕ) (ps : List ℕ) → All (λ p. p < n) ps → ApartFrom n ps
below-ApartFrom n [] h = tt
below-ApartFrom n (p ∷ ps) (h, hs) = (other h, below-ApartFrom n ps hs)
  where
    other : p < n → (p == n) ≡ false
    other h = ground (arith, h)

below_suc : (n : ℕ) (ps : List ℕ) → All (λ p. p < n) ps → All (λ p. p < suc n) ps
below_suc n [] h = tt
below_suc n (p ∷ ps) (h, hs) = (omega (arith, h), below_suc n ps hs)

-- `allocateRow`, and the row that is then put there.
abbrev pub allocated_row : Row → Table → Table
allocated_row r t = store t.next_row r (record t { next_row = suc t.next_row })

-- A table as its constructor makes it.
abbrev pub new_table : Table
new_table = record {
  rows = [];
  auto_increment_index = [];
  dirty_rows = [];
  is_dirty = false;
  row_at = λ p. none;
  next_row = 0;
}

module _ (get_key : Bytes → Bytes) where
  pub allocated_row-Represents :
      (r : Row) (t : Table) (rs : List Row)
      → Represents get_key t rs
      → Represents get_key (allocated_row r t) rs
  allocated_row-Represents r t rs s = record {
    stored =
        Stored-same t (allocated_row r t) 0 t.auto_increment_index rs
          (store-ApartFrom t t.next_row r t.auto_increment_index
            (below-ApartFrom t.next_row t.auto_increment_index s.allocated))
          s.stored;
    key_map = s.key_map;
    new_keys = s.new_keys;
    apart = s.apart;
    allocated = below_suc t.next_row t.auto_increment_index s.allocated;
  }

  pub leaked-Represents :
      (t : Table) (rs : List Row)
      → Represents get_key t rs
      → Represents get_key (record t { next_row = suc t.next_row }) rs
  leaked-Represents t rs s = record {
    stored =
        Stored-same t (record t { next_row = suc t.next_row }) 0 t.auto_increment_index rs
          (every _ t.auto_increment_index (λ q. refl)) s.stored;
    key_map = s.key_map;
    new_keys = s.new_keys;
    apart = s.apart;
    allocated = below_suc t.next_row t.auto_increment_index s.allocated;
  }

  read_rows-Represents :
      (t : Table) (before after : List Row)
      → Represents get_key t before
      → NewKeys get_key before after
      → Numbered (length before) after
      → (t' : Table) × (read_rows get_key after t ≡ ok (true, t'))
        × Represents get_key t' (before ++ after)
  unfolding read_rows
  read_rows-Represents t before [] s n m = (
    record t { next_row = suc t.next_row },
    refl,
    subst (λ l. Represents get_key (record t { next_row = suc t.next_row }) l)
        (sym (append-nil before)) (leaked-Represents t before s),
  )
  read_rows-Represents t before (r ∷ after) s (n, ns) (m, ms) =
      let t₁ = allocated_row r t in
      let s₁ = allocated_row-Represents r t before s in
      let fresh = below-ApartFrom t.next_row t.auto_increment_index s.allocated in
      let here : t₁.row_at t.next_row ≡ some r = rw (same_refl t.next_row) refl in
      let added =
        internal_add-extended get_key t₁ t.next_row r before s₁ here fresh (omega arith) n in
      let s₂ = extended-Represents get_key t₁ t.next_row r before s₁ here fresh (omega arith) n in
      let same : record r { id = length t.auto_increment_index } ≡ r =
        ap (λ k. record r { id = k })
          (Stored-length t 0 t.auto_increment_index before s.stored ∙ sym m) in
      let (t', e, s₃) =
        read_rows-Represents (extended get_key t₁ t.next_row r) (before ++ (r ∷ [])) after
          (subst (λ x. Represents get_key (extended get_key t₁ t.next_row r) (before ++ (x ∷ [])))
            same s₂)
          ns (subst (λ k. Numbered k after) (omega (arith, length-append before (r ∷ []))) ms) in
      (t', rw added e, subst (λ l. Represents get_key t' l) (append_assoc before (r ∷ []) after) s₃)

  pub new_table-Represents : Represents get_key new_table []
  new_table-Represents = record {
    stored = tt;
    key_map = refl;
    new_keys = tt;
    apart = tt;
    allocated = tt;
  }

  -- A file of rows with their places as ids and no key twice is read into a table of these rows.
  pub read-Represents :
      (file : TableFile)
      → file.signature ≡ table_signature
      → NewKeys get_key [] file.rows
      → Numbered 0 file.rows
      → (t : Table) × (read get_key (some file) new_table ≡ ok (true, t))
        × Represents get_key t file.rows
  unfolding read
  read-Represents file g n m =
      let (t, e, s) = read_rows-Represents new_table [] file.rows new_table-Represents n m in
      (t, rw (g, same_refl table_signature) e, s)
