-- ===== src/Diff/Readable.antt =====
-- Classes whose names src/interfaces/cfdiff/ClassfileDiffApp.cpp can look up, and the maps it makes of
-- their parts.
use tarracsh.Prelude.{All-append, ◌≡◌, refl, List, [], ◌∷◌, ◌++◌, All, Bool-cases, inl, inr}
use tarracsh.Outcome.{Outcome, ok}
use tarracsh.ClassFile.Pool.{Bytes, ConstantPool}
use tarracsh.ClassFile.Entries.{get_class_info_name, get_string}
use tarracsh.ClassFile.Parser.{AttributeInfo, MemberInfo, ClassFile}
use tarracsh.Digest.Class.{equal}
use tarracsh.Diff.Names.{NameMap, put, by_name, push}
use tarracsh.Diff.Compare.{Options}
use tarracsh.Diff.Members.{is_compared, compared, extract_methods}

-- The run returns a name.
abbrev pub HasName : Outcome Bytes → Type 0
HasName r = (name : Bytes) × (r ≡ ok name)

module _ (pool : ConstantPool) where
  abbrev pub AttributeReadable : AttributeInfo → Type 0
  AttributeReadable a = HasName (get_string pool a.name_index)

  pub record MemberReadable (m : MemberInfo) : Type 0 where
    pub name : HasName (get_string pool m.name_index)
    pub descriptor : HasName (get_string pool m.descriptor_index)
    pub attributes : All AttributeReadable m.attributes

-- Every index that the comparison follows leads to its text.
pub record Readable (c : ClassFile) : Type 0 where
  pub this_class : HasName (get_class_info_name c.constant_pool c.main_class_info.this_class)
  pub super_class : HasName (get_class_info_name c.constant_pool c.main_class_info.super_class)
  pub interfaces : All (λ i. HasName (get_class_info_name c.constant_pool i)) c.interfaces
  pub attributes : All (AttributeReadable c.constant_pool) c.attributes
  pub fields : All (MemberReadable c.constant_pool) c.fields
  pub methods : All (MemberReadable c.constant_pool) c.methods

-- Each value of the map has the property.
abbrev pub Kept : {V : Type 0} → (V → Type 0) → NameMap V → Type 0
Kept P [] = Unit
Kept P ((name, v) ∷ m) = P v × Kept P m

pub put-Kept :
    {V : Type 0} (P : V → Type 0) (name : Bytes) (v : V) (m : NameMap V)
    → P v
    → Kept P m
    → Kept P (put name v m)
unfolding put
put-Kept P name v [] h k = (h, tt)
put-Kept P name v ((n, w) ∷ m) h (p, k) = elim (Bool-cases (equal name n)) [
  | inl e ↦ rw e (h, k)
  | inr e ↦ rw e (p, put-Kept P name v m h k)
]

-- A map of items that have names is made, and holds no others.
pub by_name-Kept :
    {A : Type 0} (P : A → Type 0) (name_of : A → Outcome Bytes) (m : NameMap A) (xs : List A)
    → ((a : A) → P a → HasName (name_of a))
    → Kept P m
    → All P xs
    → (m' : NameMap A) × (by_name name_of m xs ≡ ok m') × Kept P m'
unfolding by_name
by_name-Kept P name_of m [] named k h = (m, refl, k)
by_name-Kept P name_of m (a ∷ xs) named k (p, h) =
    let (name, e) = named a p in
    let (m', made, kept) =
      by_name-Kept P name_of (put name a m) xs named (put-Kept P name a m p k) h in
    (m', rw e made, kept)

-- A vector of overloads, each with the property, and at least one.
abbrev pub Overloads : {V : Type 0} → (V → Type 0) → List V → Type 0
Overloads P [] = ⊥
Overloads P (v ∷ vs) = P v × All P vs

Overloads-append :
    {V : Type 0} (P : V → Type 0) (vs : List V) (v : V)
    → Overloads P vs
    → P v
    → Overloads P (vs ++ (v ∷ []))
Overloads-append P [] v h p = absurd h
Overloads-append P (w ∷ vs) v (q, h) p = (q, All-append P vs v h p)

push-Kept :
    {V : Type 0} (P : V → Type 0) (name : Bytes) (v : V) (m : NameMap (List V))
    → P v
    → Kept (Overloads P) m
    → Kept (Overloads P) (push name v m)
unfolding push
push-Kept P name v [] h k = ((h, tt), tt)
push-Kept P name v ((n, vs) ∷ m) h (p, k) = elim (Bool-cases (equal name n)) [
  | inl e ↦ rw e (Overloads-append P vs v p h, k)
  | inr e ↦ rw e (p, push-Kept P name v m h k)
]

pub extract_methods-Kept :
    (pool : ConstantPool) (m : NameMap (List MemberInfo)) (ms : List MemberInfo)
    → Kept (Overloads (MemberReadable pool)) m
    → All (MemberReadable pool) ms
    → (m' : NameMap (List MemberInfo)) × (extract_methods pool m ms ≡ ok m')
      × Kept (Overloads (MemberReadable pool)) m'
unfolding extract_methods
extract_methods-Kept pool m [] k h = (m, refl, k)
extract_methods-Kept pool m (method ∷ ms) k (p, h) =
    let (name, e) = p.name in
    let (m', made, kept) =
      extract_methods-Kept pool (push name method m) ms
        (push-Kept (MemberReadable pool) name method m p k) h in
    (m', rw e made, kept)

pub compared-All :
    (P : MemberInfo → Type 0) (o : Options) (ms : List MemberInfo)
    → All P ms
    → All P (compared o ms)
unfolding compared
compared-All P o [] h = tt
compared-All P o (m ∷ ms) (p, h) = elim (Bool-cases (is_compared o m)) [
  | inl e ↦ rw e (p, compared-All P o ms h)
  | inr e ↦ rw e (compared-All P o ms h)
]
