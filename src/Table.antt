-- ===== src/Table.antt =====
-- src/infrastructure/db/table/Table.{h,cpp}: rows in memory that the caller and the table share, the
-- map from keys to rows, the index of rows by id, and the file that rows are written to.
-- `getKey`, which each table overrides and which reads a row's columns, is a parameter.
pub mod Contents
pub mod Adding
pub mod Reading
pub mod Writing
pub mod Keys
pub mod Changing
pub mod Lookups
pub mod Hazards
pub mod Marks
pub mod Validity
pub mod InPlace
pub mod Reopened
pub mod History
pub mod Safety
use tarracsh.Prelude.{
  ℕ, zero, suc, ◌+◌, ◌%◌, Bool, true, false, List, [], ◌∷◌, ◌++◌, length, get_elem?, replicate,
  Option, none, some, ◌==◌, if◌then◌else◌, not, ◌&&◌,
}
use tarracsh.Outcome.{Outcome, ok, fault, ◌>>=◌}
use tarracsh.ClassFile.Pool.{Bytes}
use tarracsh.Digest.Class.{equal}

-- AutoIncrementedRow, with the bytes of the columns that the table's own row type adds.
pub record Row : Type 0 where
  pub flags : ℕ
  pub id : ℕ
  pub columns : Bytes

pub data DirtyType : Type 0 where
  is_update is_new is_deleted : DirtyType

-- `row_at` is the memory, by address; the allocator gives `next_row` out next, and no address twice.
pub record Table : Type 0 where
  pub rows : List (Bytes × ℕ)
  pub auto_increment_index : List ℕ
  pub dirty_rows : List (ℕ × DirtyType)
  pub is_dirty : Bool
  pub row_at : ℕ → Option Row
  pub next_row : ℕ

pub record TableFile : Type 0 where
  pub signature : ℕ
  pub rows : List Row

abbrev pub table_signature : ℕ
table_signature = 869104986570

-- Memory that was freed, or never given out, is not read.
abbrev pub there : {A : Type 0} → Option A → Outcome A
there none = fault
there (some a) = ok a

abbrev pub load : ℕ → Table → Outcome Row
load p t = there (t.row_at p)

abbrev pub store : ℕ → Row → Table → Table
store p r t = record t { row_at = λ q. if q == p then some r else t.row_at q }

abbrev pub free_row : ℕ → Table → Table
free_row p t = record t { row_at = λ q. if q == p then none else t.row_at q }

abbrev pub is_row_deleted : Row → Bool
is_row_deleted r = r.flags % 2 == 1

abbrev pub set_deleted : Row → Row
set_deleted r = record r { flags = if is_row_deleted r then r.flags else r.flags + 1 }

abbrev pub lookup : Bytes → List (Bytes × ℕ) → Option ℕ
lookup key [] = none
lookup key ((k, p) ∷ rows) = let rest = lookup key rows in if equal k key then some p else rest

abbrev pub is_marked : ℕ → List (ℕ × DirtyType) → Bool
is_marked id [] = false
is_marked id ((i, d) ∷ dirty) = let rest = is_marked id dirty in if i == id then true else rest

-- `_dirtyRows[id] = type`.
abbrev pub mark : ℕ → DirtyType → List (ℕ × DirtyType) → List (ℕ × DirtyType)
mark id type [] = (id, type) ∷ []
mark id type ((i, d) ∷ dirty) =
    let rest = mark id type dirty in if i == id then (i, type) ∷ dirty else (i, d) ∷ rest

-- What all changes of a row end with.
abbrev pub touch : ℕ → Table → Table
touch id t = record t {
  dirty_rows = if is_marked id t.dirty_rows then t.dirty_rows else mark id is_update t.dirty_rows;
  is_dirty = true;
}

abbrev pub size : Table → ℕ
size t = length t.rows

unfoldable pub get_row : ℕ → Table → Outcome ℕ
get_row id t = there (get_elem? t.auto_increment_index id)

unfoldable pub find_by_key : Bytes → Table → Option ℕ
find_by_key key t = lookup key t.rows

-- The rows are visited by id; the loop ends where `func` says no.
unfoldable pub for_each : {A : Type 0} → (A → Row → Bool × A) → List ℕ → A → Table → Outcome A
for_each func [] a t = ok a
for_each func (p ∷ index) a t = load p t >>= λ r.
    let (more, a') = func a r in
    let rest = for_each func index a' t in
    let passed = for_each func index a t in
    if is_row_deleted r then passed else if more then rest else ok a'

unfoldable pub delete_row : ℕ → Table → Outcome (Bool × Table)
unfolding get_row
delete_row id t =
    get_row id t >>= λ p. load p t >>= λ r. ok (true, touch r.id (store p (set_deleted r) t))

-- `internalAdd`, by what `_rows` has under the key. The first id is read for a warning.
abbrev pub put_new : ℕ → Bytes → Table → Option ℕ → Outcome Table
put_new p key t (some q) = fault
put_new p key t none = load p t >>= λ r.
    let t' =
      store p (record r { id = length t.auto_increment_index })
        (record t {
          rows = t.rows ++ ((key, p) ∷ []);
          auto_increment_index = t.auto_increment_index ++ (p ∷ []);
        }) in
    there (get_elem? t'.auto_increment_index 0) >>= λ first. load first t' >>= λ row. ok t'

unfoldable pub internal_add : ℕ → Bytes → Table → Outcome Table
internal_add p key t = put_new p key t (lookup key t.rows)

unfoldable pub internal_update : ℕ → Bytes → Table → Outcome Table
internal_update p key t = there (lookup key t.rows) >>= λ dest.
    if dest == p
    then ok t
    else (load dest t >>= λ old. load p t >>= λ r.
        ok (
          free_row p
            (store dest (record r { id = old.id }) (store p (record r { id = old.id }) t))))

module _ (get_key : Bytes → Bytes) where
  unfoldable pub update : ℕ → Table → Outcome Table
  update p t = load p t >>= λ r.
      internal_update p (get_key r.columns) t >>= λ t'. load p t' >>= λ r'. ok (touch r'.id t')

  -- A new row is marked as such, also where its id was marked before.
  unfoldable pub add : ℕ → Table → Outcome (ℕ × Table)
  add p t = load p t >>= λ r. internal_add p (get_key r.columns) t >>= λ t'. load p t' >>= λ r'.
      ok (r'.id, record t' { dirty_rows = mark r'.id is_new t'.dirty_rows; is_dirty = true })

  abbrev pub update_known : ℕ → Bytes → Table → Outcome (ℕ × Table)
  update_known p key t =
      internal_update p key t >>= λ t'. load p t' >>= λ r'. ok (r'.id, touch r'.id t')

  abbrev pub add_or_update_by : ℕ → Bytes → Table → Option ℕ → Outcome (ℕ × Table)
  add_or_update_by p key t (some q) = update_known p key t
  add_or_update_by p key t none = add p t

  unfoldable pub add_or_update : ℕ → Table → Outcome (ℕ × Table)
  add_or_update p t =
      load p t >>= λ r. add_or_update_by p (get_key r.columns) t (lookup (get_key r.columns) t.rows)

  -- The rows of a file, each put into a row of its own; one more is allocated at the file's end.
  unfoldable pub read_rows : List Row → Table → Outcome (Bool × Table)
  read_rows [] t = ok (true, record t { next_row = suc t.next_row })
  read_rows (r ∷ file) t =
      internal_add t.next_row (get_key r.columns)
        (store t.next_row r (record t { next_row = suc t.next_row }))
      >>= λ t'. read_rows file t'

  unfoldable pub read : Option TableFile → Table → Outcome (Bool × Table)
  read none t = ok (true, t)
  read (some file) t =
      if file.signature == table_signature then read_rows file.rows t else ok (false, t)

-- `updateInPlace`: `change` is what the function does to a row of the table, whose address it returns.
unfoldable pub update_in_place : (Table → Outcome (ℕ × Row)) → Table → Outcome Table
update_in_place change t = change t >>= λ (p, r). ok (touch r.id (store p r t))

-- A block of zeros, which is what a file has where it was not written.
abbrev pub zero_row : Row → Row
zero_row r = record { flags = 0; id = 0; columns = replicate (length r.columns) 0 }

abbrev pub put_row : ℕ → Row → List Row → List Row
put_row zero r [] = r ∷ []
put_row zero r (x ∷ file) = r ∷ file
put_row (suc n) r [] = zero_row r ∷ put_row n r []
put_row (suc n) r (x ∷ file) = x ∷ put_row n r file

-- The loop of `writeRows`, from an id on.
unfoldable pub write_rows : ℕ → List ℕ → Table → List Row → Outcome (List Row)
write_rows id [] t file = ok file
write_rows id (p ∷ index) t file = load p t >>= λ r.
    let rest =
      write_rows (suc id) index t (if is_marked id t.dirty_rows then put_row id r file else file) in
    if r.id == id then rest else fault

abbrev pub opened : Option TableFile → TableFile
opened none = record { signature = table_signature; rows = [] }
opened (some file) = file

abbrev pub exists : Option TableFile → Bool
exists none = false
exists (some file) = true

unfoldable pub write : Option TableFile → Table → Outcome (Option TableFile × Table)
write file t =
    if not t.is_dirty && exists file
    then ok (file, t)
    else (write_rows 0 t.auto_increment_index t (opened file).rows >>= λ rows. ok (
      some (record { signature = (opened file).signature; rows = rows }),
      record t { dirty_rows = []; is_dirty = false },
    ))
