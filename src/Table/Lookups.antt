-- ===== src/Table/Lookups.antt =====
-- `findByKey` and `forEach` of src/infrastructure/db/table/Table.cpp on the rows of a list.
use tarracsh.Prelude.{
  ℕ, zero, suc, ◌≡◌, refl, ap, sym, ◌∙◌, Bool, false, List, [], ◌∷◌, ◌++◌, get_elem?, some,
  if◌then◌else◌, Bool-cases, inl, inr, subst,
}
use tarracsh.Outcome.{ok}
use tarracsh.ClassFile.Pool.{Bytes}
use tarracsh.Digest.Class.{equal}
use tarracsh.StringPool.Layout.{equal_refl}
use tarracsh.Table.{Row, Table, find_by_key, for_each, is_row_deleted, lookup}
use tarracsh.Table.Contents.{Stored, keyed, has_row, NewKeys, Represents}
use tarracsh.Table.Keys.{some_inj}

module _ {A : Type 0} (func : A → Row → Bool × A) where
  -- The function applied to row after row, until it says no.
  abbrev pub visit : List Row → A → A
  visit [] a = a
  visit (r ∷ rs) a = let rest = visit rs (func a r).1 in if (func a r).0 then rest else (func a r).1

  abbrev pub live : List Row → List Row
  live [] = []
  live (r ∷ rs) = if is_row_deleted r then live rs else r ∷ live rs

  for_each-Stored :
      (t : Table) (k : ℕ) (ps : List ℕ) (rs : List Row) (a : A)
      → Stored t k ps rs
      → for_each func ps a t ≡ ok (visit (live rs) a)
  unfolding for_each
  for_each-Stored t k [] [] a s = refl
  for_each-Stored t k [] (r ∷ rs) a s = absurd s
  for_each-Stored t k (p ∷ ps) [] a s = absurd s
  for_each-Stored t k (p ∷ ps) (r ∷ rs) a (h, (i, s)) = elim (Bool-cases (is_row_deleted r)) [
    | inl d ↦ rw (h, d) (for_each-Stored t (suc k) ps rs a s)
    | inr d ↦ elim (Bool-cases (func a r).0) [
      | inl m ↦ rw (h, d, m) (for_each-Stored t (suc k) ps rs (func a r).1 s)
      | inr m ↦ rw (h, d, m) refl
    ]
  ]

  -- The loop visits the rows that are not deleted, in the order of their ids.
  pub for_each-live :
      (get_key : Bytes → Bytes) (t : Table) (rs : List Row) (a : A)
      → Represents get_key t rs
      → for_each func t.auto_increment_index a t ≡ ok (visit (live rs) a)
  for_each-live get_key t rs a s = for_each-Stored t 0 t.auto_increment_index rs a s.stored

module _ (get_key : Bytes → Bytes) where
  has_row-append :
      (key : Bytes) (rs more : List Row)
      → has_row get_key key (rs ++ more) ≡ false
      → has_row get_key key rs ≡ false
  has_row-append key [] more = λ h. refl
  has_row-append key (r ∷ rs) more = elim (Bool-cases (equal (get_key r.columns) key)) [
    | inl e ↦ rw e (λ h. h)
    | inr e ↦ rw e (has_row-append key rs more)
  ]

  -- Rows with new keys have none of the earlier keys.
  NewKeys-get :
      (earlier rs : List Row) (n : ℕ) (r : Row)
      → NewKeys get_key earlier rs
      → get_elem? rs n ≡ some r
      → has_row get_key (get_key r.columns) earlier ≡ false
  NewKeys-get earlier [] n r h e = cc
  NewKeys-get earlier (x ∷ rs) zero r (h, hs) e =
      subst (λ y. has_row get_key (get_key y.columns) earlier ≡ false) (some_inj x r e) h
  NewKeys-get earlier (x ∷ rs) (suc n) r (h, hs) e =
      has_row-append (get_key r.columns) earlier (x ∷ [])
        (NewKeys-get (earlier ++ (x ∷ [])) rs n r hs e)

  has_row-last :
      (key : Bytes) (earlier : List Row) (x : Row)
      → has_row get_key key (earlier ++ (x ∷ [])) ≡ false
      → equal (get_key x.columns) key ≡ false
  has_row-last key [] x = elim (Bool-cases (equal (get_key x.columns) key)) [
    | inl e ↦ rw e (λ h. h)
    | inr e ↦ λ h. e
  ]
  has_row-last key (r ∷ earlier) x = elim (Bool-cases (equal (get_key r.columns) key)) [
    | inl e ↦ rw e (λ h. cc)
    | inr e ↦ rw e (has_row-last key earlier x)
  ]

  lookup-NewKeys :
      (t : Table) (k : ℕ) (earlier rs : List Row) (ps : List ℕ) (n : ℕ) (r : Row)
      → Stored t k ps rs
      → NewKeys get_key earlier rs
      → get_elem? rs n ≡ some r
      → lookup (get_key r.columns) (keyed get_key ps rs) ≡ get_elem? ps n
  lookup-NewKeys t k earlier [] ps n r s h e = cc
  lookup-NewKeys t k earlier (x ∷ rs) [] n r s h e = absurd s
  lookup-NewKeys t k earlier (x ∷ rs) (p ∷ ps) zero r s h e =
      rw
        (ap (λ y. equal (get_key x.columns) (get_key y.columns)) (sym (some_inj x r e))
          ∙ equal_refl (get_key x.columns))
        refl
  lookup-NewKeys t k earlier (x ∷ rs) (p ∷ ps) (suc n) r (a, (i, s)) (h, hs) e =
      rw
        (has_row-last (get_key r.columns) earlier x (NewKeys-get (earlier ++ (x ∷ [])) rs n r hs e))
        (lookup-NewKeys t (suc k) (earlier ++ (x ∷ [])) rs ps n r s hs e)

  -- A row, deleted or not, is found by its key, where the index has it by its id.
  pub find_by_key-Represents :
      (t : Table) (rs : List Row) (n : ℕ) (r : Row)
      → Represents get_key t rs
      → get_elem? rs n ≡ some r
      → find_by_key (get_key r.columns) t ≡ get_elem? t.auto_increment_index n
  unfolding find_by_key
  find_by_key-Represents t rs n r s e =
      ap (lookup (get_key r.columns)) s.key_map
      ∙ lookup-NewKeys t 0 [] rs t.auto_increment_index n r s.stored s.new_keys e
