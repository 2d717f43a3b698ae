-- ===== src/Table/Reopened.antt =====
-- A table that src/infrastructure/db/table/Table.cpp has read from the file that it wrote.
use tarracsh.Prelude.{
  ℕ, suc, ◌≡◌, refl, sym, ap, ◌∙◌, subst, false, Bool, List, [], ◌∷◌, Option, some, none, ◌++◌,
  length, get_elem?,
}
use tarracsh.Table.Contents.{Represents}
use tarracsh.Outcome.{Outcome, ok, ok_lem, ◌>>=◌, >>=-ok}
use tarracsh.ClassFile.Pool.{Bytes}
use tarracsh.Table.{
  Row, Table, TableFile, table_signature, load, store, there, lookup, put_new, internal_add, write,
  read, read_rows,
}
use tarracsh.Table.Reading.{new_table, Stored-Numbered, read-Represents}
use tarracsh.Table.Validity.{State, Valid, write-Valid}
use tarracsh.Table.Writing.{written_now}

-- Nothing is marked.
abbrev Unmarked : Table → Type 0
Unmarked t = (t.dirty_rows ≡ []) × (t.is_dirty ≡ false)

checked_first :
    (a : Outcome ℕ) (f : ℕ → Outcome Row) (t t' : Table)
    → (a >>= λ first. f first >>= λ row. ok t) ≡ ok t'
    → t ≡ t'
checked_first a f t t' h =
    let (first, e, k) = >>=-ok a (λ first. f first >>= λ row. ok t) t' h in
    let (row, g, n) = >>=-ok (f first) (λ row. ok t) t' k in ok_lem n

put_new-Unmarked :
    (p : ℕ) (key : Bytes) (t t' : Table) (o : Option ℕ)
    → put_new p key t o ≡ ok t'
    → Unmarked t
    → Unmarked t'
put_new-Unmarked p key t t' (some q) e u = cc
put_new-Unmarked p key t t' none e u =
    let (r, there_is, k) = >>=-ok (load p t) _ t' e in
    let added : Table =
      store p (record r { id = length t.auto_increment_index })
        (record t {
          rows = t.rows ++ ((key, p) ∷ []);
          auto_increment_index = t.auto_increment_index ++ (p ∷ []);
        }) in
    subst Unmarked
      (checked_first (there (get_elem? added.auto_increment_index 0)) (λ first. load first added)
        added t' k)
      u

module _ (get_key : Bytes → Bytes) where
  read_rows-Unmarked :
      (rs : List Row) (t t' : Table) (b : Bool)
      → read_rows get_key rs t ≡ ok (b, t')
      → Unmarked t
      → Unmarked t'
  unfolding read_rows internal_add
  read_rows-Unmarked [] t t' b e u = subst (λ (q : Bool × Table). Unmarked q.1) (ok_lem e) u
  read_rows-Unmarked (r ∷ rs) t t' b e u =
      let key = get_key r.columns in
      let t₁ = store t.next_row r (record t { next_row = suc t.next_row }) in
      let (t₂, added, rest) =
        >>=-ok (put_new t.next_row key t₁ (lookup key t₁.rows)) (read_rows get_key rs) (b, t') e in
      read_rows-Unmarked rs t₂ t' b rest
        (put_new-Unmarked t.next_row key t₁ t₂ (lookup key t₁.rows) added u)

  -- What was written and is read again has the same rows, with nothing marked.
  pub reopened-Valid :
      (s : State) (rs : List Row) (file : Option TableFile) (t t' : Table) (b : Bool)
      → Valid get_key s rs
      → write s.file s.table ≡ ok (file, t)
      → read get_key file new_table ≡ ok (b, t')
      → Valid get_key (record { file = file; table = t' }) rs
  unfolding read
  reopened-Valid s rs file t t' b v w e =
      let (s', w', v', f) = write-Valid get_key s rs v in
      let kept : TableFile = record { signature = table_signature; rows = rs } in
      let (t₁, e₁, r) =
        read-Represents get_key kept refl v.rows.new_keys
          (Stored-Numbered s.table 0 s.table.auto_increment_index rs v.rows.stored) in
      let is_kept : file ≡ some kept =
        ap (λ (q : Option TableFile × Table). q.0) (ok_lem (sym w ∙ w')) ∙ f in
      let again : read get_key (some kept) new_table ≡ ok (b, t') =
        ap (λ o. read get_key o new_table) (sym is_kept) ∙ e in
      let (unmarked, clean) = read_rows-Unmarked rs new_table t' b again (refl, refl) in
      subst (λ o. Valid get_key (record { file = o; table = t' }) rs) (sym is_kept)
        (record {
          rows =
              subst (λ t. Represents get_key t rs)
                (ap (λ (q : Bool × Table). q.1) (ok_lem (sym e₁ ∙ again))) r;
          synced = written_now t'.dirty_rows 0 rs;
          clean = λ c. unmarked;
          signed = refl;
        })
