-- ===== src/Table/Validity.antt =====
-- What the operations of src/infrastructure/db/table/Table.cpp keep of a table and its file.
use tarracsh.Prelude.{
  ℕ, suc, ◌<◌, ◌≡◌, ◌≢◌, refl, ap, ap₂, sym, ◌∙◌, Bool, true, false, List, [], ◌∷◌, ◌++◌, length,
  get_elem?, Option, none, some, arith, Bool-cases, inl, inr, subst, not, ◌&&◌,
}
use tarracsh.Outcome.{Outcome, ok, >>=-ok}
use tarracsh.ClassFile.Pool.{Bytes}
use tarracsh.Digest.Class.{equal}
use tarracsh.Table.{
  Row, Table, TableFile, DirtyType, is_new, table_signature, load, there, lookup, internal_add, add,
  delete_row, get_row, set_deleted, mark, is_marked, write, opened, exists,
}
use tarracsh.Table.Contents.{ApartFrom, Stored, keyed, has_row, Represents, Stored-length}
use tarracsh.Table.Adding.{add-extended, extended, extended-Represents, Represents-marked}
use tarracsh.Table.Writing.{Synced, write_rows-Synced, Synced-nil, written_now, is_marked-mark}
use tarracsh.Table.Marks.{Synced-mark, Synced-append, touched-replace}
use tarracsh.Table.Changing.{delete_row-at}
use tarracsh.Table.Keys.{replace}

-- A table in memory and the file under its name.
pub record State : Type 0 where
  pub file : Option TableFile
  pub table : Table

unchanged :
    (file : Option TableFile) (b : Bool) (dirty : List (ℕ × DirtyType)) (rs : List Row)
    → (not b && exists file) ≡ true
    → (b ≡ false → dirty ≡ [])
    → Synced dirty 0 rs (opened file).rows
    → (opened file).signature ≡ table_signature
    → file ≡ some (record { signature = table_signature; rows = rs })
unchanged file true dirty rs e c y g = cc
unchanged none false dirty rs e c y g = cc
unchanged (some f) false dirty rs e c y g =
    ap₂ (λ i l. some (record { signature = i; rows = l })) g
      (Synced-nil 0 rs f.rows (subst (λ d. Synced d 0 rs f.rows) (c refl) y))

module _ (get_key : Bytes → Bytes) where
  -- The rows of the table, with those in the file that are not marked.
  pub record Valid (s : State) (rs : List Row) : Type 0 where
    pub rows : Represents get_key s.table rs
    pub synced : Synced s.table.dirty_rows 0 rs (opened s.file).rows
    pub clean : s.table.is_dirty ≡ false → s.table.dirty_rows ≡ []
    pub signed : (opened s.file).signature ≡ table_signature

  lookup-known :
      (t : Table) (k : ℕ) (key : Bytes) (ps : List ℕ) (rs : List Row)
      → Stored t k ps rs
      → has_row get_key key rs ≡ true
      → (q : ℕ) × (lookup key (keyed get_key ps rs) ≡ some q)
  lookup-known t k key ps [] s h = cc
  lookup-known t k key [] (r ∷ rs) s h = absurd s
  lookup-known t k key (p ∷ ps) (r ∷ rs) (a, (i, s)) h =
      elim (Bool-cases (equal (get_key r.columns) key)) [
        | inl e ↦ (p, rw e refl)
        | inr e ↦ let (q, l) = lookup-known t (suc k) key ps rs s (later e h) in (q, rw e l)
      ]
    where
      later :
          equal (get_key r.columns) key ≡ false
          → has_row get_key key (r ∷ rs) ≡ true
          → has_row get_key key rs ≡ true
      later e = rw e (λ h. h)

  add-unknown :
      (t : Table) (rs : List Row) (p i : ℕ) (r : Row) (t' : Table)
      → Represents get_key t rs
      → t.row_at p ≡ some r
      → add get_key p t ≡ ok (i, t')
      → has_row get_key (get_key r.columns) rs ≡ false
  unfolding add internal_add
  add-unknown t rs p i r t' s a h = elim (Bool-cases (has_row get_key (get_key r.columns) rs)) [
    | inr n ↦ n
    | inl n ↦
        let (q, l) = lookup-known t 0 (get_key r.columns) t.auto_increment_index rs s.stored n in
        absurd (failed q (ap (lookup (get_key r.columns)) s.key_map ∙ l) h)
  ]
    where
      failed : (q : ℕ) → lookup (get_key r.columns) t.rows ≡ some q → add get_key p t ≢ ok (i, t')
      failed q l = rw (a, l) (λ h. cc)

  add-there :
      (t t' : Table) (p i : ℕ) → add get_key p t ≡ ok (i, t') → (r : Row) × (t.row_at p ≡ some r)
  unfolding add
  add-there t t' p i h = let (r, e, g) = >>=-ok (load p t) _ (i, t') h in of_there (t.row_at p) r e
    where
      of_there : (o : Option Row) (r : Row) → there o ≡ ok r → (x : Row) × (o ≡ some x)
      of_there (some x) r e = (x, refl)
      of_there none r e = cc

  run_inj :
      (i j : ℕ) (t t' : Table) → ◌≡◌ {A = Outcome (ℕ × Table)} (ok (i, t)) (ok (j, t')) → t ≡ t'
  run_inj i j t t' h = cc

  extended-Valid :
      (s : State) (rs : List Row) (p : ℕ) (r : Row)
      → Valid s rs
      → s.table.row_at p ≡ some r
      → ApartFrom p s.table.auto_increment_index
      → p < s.table.next_row
      → has_row get_key (get_key r.columns) rs ≡ false
      → Valid
          (record s {
            table = record (extended get_key s.table p r) {
              dirty_rows = mark (length s.table.auto_increment_index) is_new s.table.dirty_rows;
              is_dirty = true;
            };
          })
          (rs ++ (record r { id = length s.table.auto_increment_index } ∷ []))
  extended-Valid s rs p r v e a o n =
      let i = length s.table.auto_increment_index in
      record {
        rows =
            Represents-marked get_key (extended get_key s.table p r) _ _ true
              (extended-Represents get_key s.table p r rs v.rows e a o n);
        synced =
            Synced-append (mark i is_new s.table.dirty_rows) 0 rs (opened s.file).rows
              (record r { id = i })
              (Synced-mark i is_new s.table.dirty_rows 0 rs (opened s.file).rows v.synced)
              (subst (λ j. is_marked j (mark i is_new s.table.dirty_rows) ≡ true)
                (omega
                  (arith, Stored-length s.table 0 s.table.auto_increment_index rs v.rows.stored))
                (is_marked-mark i is_new s.table.dirty_rows));
        clean = λ c. cc;
        signed = v.signed;
      }

  pub add-Valid :
      (s : State) (rs : List Row) (p i : ℕ) (t : Table)
      → Valid s rs
      → ApartFrom p s.table.auto_increment_index
      → p < s.table.next_row
      → add get_key p s.table ≡ ok (i, t)
      → (rs' : List Row) × Valid (record s { table = t }) rs'
  add-Valid s rs p i t v a o h =
      let (r, e) = add-there s.table t p i h in
      let n = add-unknown s.table rs p i r t v.rows e h in
      let rs' = rs ++ (record r { id = length s.table.auto_increment_index } ∷ []) in
      let same = run_inj _ i _ t (sym (add-extended get_key s.table p r rs v.rows e a o n) ∙ h) in
      (
        rs',
        subst (λ x. Valid (record s { table = x }) rs') same (extended-Valid s rs p r v e a o n),
      )

  pub delete-Valid :
      (s : State) (rs : List Row) (n : ℕ) (b : Bool) (t : Table)
      → Valid s rs
      → delete_row n s.table ≡ ok (b, t)
      → (rs' : List Row) × Valid (record s { table = t }) rs'
  unfolding delete_row get_row
  delete-Valid s rs n b t v h =
      let (p, e, g) = >>=-ok (there (get_elem? s.table.auto_increment_index n)) _ (b, t) h in
      let (r, l, d, w) = delete_row-at get_key s.table rs n p v.rows (there_inv _ p e) in
      let rs' = replace n (set_deleted r) rs in
      let same = flag_inj true b _ t (sym d ∙ h) in
      (
        rs',
        subst (λ x. Valid (record s { table = x }) rs') same
            (record {
              rows = w;
              synced =
                  touched-replace n s.table.dirty_rows rs (opened s.file).rows (set_deleted r)
                    v.synced;
              clean = λ c. cc;
              signed = v.signed;
            }),
      )
    where
      there_inv : (o : Option ℕ) (p : ℕ) → there o ≡ ok p → o ≡ some p
      there_inv (some q) p e = cc
      there_inv none p e = cc

      flag_inj :
          (b c : Bool) (t t' : Table)
          → ◌≡◌ {A = Outcome (Bool × Table)} (ok (b, t)) (ok (c, t'))
          → t ≡ t'
      flag_inj b c t t' h = cc

  -- What writing leaves: a file of all rows, and no marks.
  abbrev saved : State → List Row → State
  saved s rs = record {
    file = some (record { signature = (opened s.file).signature; rows = rs });
    table = record s.table { dirty_rows = []; is_dirty = false };
  }

  saved-Valid : (s : State) (rs : List Row) → Valid s rs → Valid (saved s rs) rs
  saved-Valid s rs v = record {
    rows = Represents-marked get_key s.table rs [] false v.rows;
    synced = written_now [] 0 rs;
    clean = λ c. refl;
    signed = v.signed;
  }

  -- Writing does nothing, or that.
  pub write-Valid :
      (s : State) (rs : List Row)
      → Valid s rs
      → (s' : State) × (write s.file s.table ≡ ok (s'.file, s'.table))
        × Valid s' rs
        × (s'.file ≡ some (record { signature = table_signature; rows = rs }))
  unfolding write
  write-Valid s rs v = elim (Bool-cases (not s.table.is_dirty && exists s.file)) [
    | inl e ↦ (
      s,
      rw e refl,
      v,
      unchanged s.file s.table.is_dirty s.table.dirty_rows rs e v.clean v.synced v.signed,
    )
    | inr e ↦ (
      saved s rs,
      rw
          (
            e,
            write_rows-Synced s.table 0 s.table.auto_increment_index rs [] (opened s.file).rows
                v.rows.stored refl v.synced,
          )
          refl,
      saved-Valid s rs v,
      ap (λ g. some (record { signature = g; rows = rs })) v.signed,
    )
  ]
