-- ===== src/CallGraph/Rows.antt =====
-- The rows of src/domain/db/table that make up the call graph. A table is the list of its rows, none of
-- them deleted, so that a row's id is its place. A name is its place in the string pool.
use tarracsh.Prelude.{ℕ}
use tarracsh.ClassFile.Pool.{Bytes}

-- ClassFileRow, with the text that `getStrongClassname` gives for it.
pub record ClassFileRow : Type 0 where
  pub id : ℕ
  pub classname : ℕ
  pub strong_classname : Bytes
  pub ref_count : ℕ

pub record ClassRefRow : Type 0 where
  pub id : ℕ
  pub owner_class : ℕ
  pub name : ℕ
  pub edge_count : ℕ

-- ClassRefEdgeRow, MethodRefEdgeRow and FieldRefEdgeRow, which have the same columns.
pub record EdgeRow : Type 0 where
  pub owner_class : ℕ
  pub from : ℕ
  pub to : ℕ

-- A new one: every RefCol is 0.
abbrev pub new_edge : EdgeRow
new_edge = record { owner_class = 0; from = 0; to = 0 }

-- MethodRow and FieldRow, with the text that `getStrongMemberName` gives for it.
pub record MemberRow : Type 0 where
  pub id : ℕ
  pub owner_class : ℕ
  pub name : ℕ
  pub descriptor : ℕ
  pub strong_name : Bytes
  pub ref_count : ℕ

-- MethodRefRow and FieldRefRow.
pub record MemberRefRow : Type 0 where
  pub id : ℕ
  pub owner_class : ℕ
  pub classname : ℕ
  pub name : ℕ
  pub descriptor : ℕ
  pub edge_count : ℕ
