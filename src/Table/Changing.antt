-- ===== src/Table/Changing.antt =====
-- `deleteRow` and `updateInPlace` of src/infrastructure/db/table/Table.cpp as changing a row of a list.
use tarracsh.Prelude.{
  ℕ, zero, suc, ◌+◌, ◌≡◌, ◌≢◌, refl, ap, sym, ◌∙◌, true, false, List, [], ◌∷◌, get_elem?, none,
  some, ◌==◌, arith, subst,
}
use tarracsh.Outcome.{Outcome, ok}
use tarracsh.ClassFile.Pool.{Bytes}
use tarracsh.Table.{Row, Table, store, touch, set_deleted, get_row, delete_row, update_in_place}
use tarracsh.Table.Contents.{
  Apart, ApartFrom, Stored, Represents, Stored-same, store-ApartFrom, same_sym,
}
use tarracsh.Table.Adding.{Represents-marked, same_refl}
use tarracsh.Table.Keys.{replace, some_inj, keyed-keys, NewKeys-keys, keys_of-replace}

-- The row at a place, and the rows with another there.
pub record At (t : Table) (k : ℕ) (ps : List ℕ) (rs : List Row) (n p : ℕ) : Type 0 where
  pub row : Row
  pub is_there : t.row_at p ≡ some row
  pub has_id : row.id ≡ k + n
  pub listed : get_elem? rs n ≡ some row
  pub stores : (x : Row) → x.id ≡ k + n → Stored (store p x t) k ps (replace n x rs)

number_inj : (x y : ℕ) → some x ≡ some y → x ≡ y
number_inj x y h = cc

pub ApartFrom-get :
    (p q n : ℕ) (ps : List ℕ) → ApartFrom p ps → get_elem? ps n ≡ some q → (q == p) ≡ false
ApartFrom-get p q n [] h e = cc
ApartFrom-get p q zero (x ∷ ps) (h, hs) e = subst (λ y. (y == p) ≡ false) (number_inj x q e) h
ApartFrom-get p q (suc n) (x ∷ ps) (h, hs) e = ApartFrom-get p q n ps hs e

nowhere : (p : ℕ) → none ≢ some p
nowhere p h = cc

pub Stored-At :
    (t : Table) (k : ℕ) (ps : List ℕ) (rs : List Row) (n p : ℕ)
    → Stored t k ps rs
    → Apart ps
    → get_elem? ps n ≡ some p
    → At t k ps rs n p
Stored-At t k [] rs n p s a e = absurd (nowhere p e)
Stored-At t k (q ∷ ps) [] n p s a e = absurd s
Stored-At t k (q ∷ ps) (r ∷ rs) zero p (h, (i, s)) (a, rest) e =
    subst (λ y. At t k (q ∷ ps) (r ∷ rs) 0 y) (number_inj q p e)
      (record {
        row = r;
        is_there = h;
        has_id = omega (arith, i);
        listed = refl;
        stores = λ x j. (
          rw (same_refl q) refl,
          (
            omega (arith, j),
            Stored-same t (store q x t) (suc k) ps rs (store-ApartFrom t q x ps a) s,
          ),
        );
      })
Stored-At t k (q ∷ ps) (r ∷ rs) (suc n) p (h, (i, s)) (a, rest) e =
    let later = Stored-At t (suc k) ps rs n p s rest e in
    record {
      row = later.row;
      is_there = later.is_there;
      has_id = omega (arith, later.has_id);
      listed = later.listed;
      stores = λ x j. (
        rw (same_sym q p (ApartFrom-get q p n ps a e)) h,
        (i, later.stores x (omega (arith, j))),
      );
    }

module _ (get_key : Bytes → Bytes) where
  Stored-get :
      (t : Table) (k : ℕ) (ps : List ℕ) (rs : List Row) (n : ℕ) (r : Row)
      → Stored t k ps rs
      → get_elem? rs n ≡ some r
      → (p : ℕ) × (get_elem? ps n ≡ some p)
  Stored-get t k [] [] n r s e = cc
  Stored-get t k [] (x ∷ rs) n r s e = absurd s
  Stored-get t k (p ∷ ps) [] n r s e = absurd s
  Stored-get t k (p ∷ ps) (x ∷ rs) zero r s e = (p, refl)
  Stored-get t k (p ∷ ps) (x ∷ rs) (suc n) r (a, (i, s)) e = Stored-get t (suc k) ps rs n r s e

  pub store-Represents :
      (t : Table) (rs : List Row) (n p : ℕ) (r x : Row)
      → Represents get_key t rs
      → get_elem? t.auto_increment_index n ≡ some p
      → get_elem? rs n ≡ some r
      → x.id ≡ n
      → get_key x.columns ≡ get_key r.columns
      → Represents get_key (store p x t) (replace n x rs)
  store-Represents t rs n p r x s e l i k =
      let same = keys_of-replace get_key n x r rs l k in
      record {
        stored =
            (Stored-At t 0 t.auto_increment_index rs n p s.stored s.apart e).stores x
              (omega (arith, i));
        key_map =
            s.key_map ∙ keyed-keys get_key t.auto_increment_index rs (replace n x rs) (sym same);
        new_keys = NewKeys-keys get_key [] [] rs (replace n x rs) refl (sym same) s.new_keys;
        apart = s.apart;
        allocated = s.allocated;
      }

  -- Deleting the row at an address of the index.
  pub delete_row-at :
      (t : Table) (rs : List Row) (n p : ℕ)
      → Represents get_key t rs
      → get_elem? t.auto_increment_index n ≡ some p
      → (r : Row) × (get_elem? rs n ≡ some r)
        × (delete_row n t ≡ ok (true, touch n (store p (set_deleted r) t)))
        × Represents get_key (touch n (store p (set_deleted r) t)) (replace n (set_deleted r) rs)
  unfolding delete_row get_row
  delete_row-at t rs n p s e =
      let a = Stored-At t 0 t.auto_increment_index rs n p s.stored s.apart e in
      let id : a.row.id ≡ n = omega (arith, a.has_id) in
      (
        a.row,
        a.listed,
        rw (e, a.is_there) (ap (λ i. ok (true, touch i (store p (set_deleted a.row) t))) id),
        Represents-marked get_key (store p (set_deleted a.row) t) _ _ true
            (store-Represents t rs n p a.row (set_deleted a.row) s e a.listed id refl),
      )

  -- Deleting a row by its id marks it as deleted and leaves the others.
  pub delete_row-Represents :
      (t : Table) (rs : List Row) (n : ℕ) (r : Row)
      → Represents get_key t rs
      → get_elem? rs n ≡ some r
      → (t' : Table) × (delete_row n t ≡ ok (true, t'))
        × Represents get_key t' (replace n (set_deleted r) rs)
  delete_row-Represents t rs n r s l =
      let (p, e) = Stored-get t 0 t.auto_increment_index rs n r s.stored l in
      let (r', l', d, s') = delete_row-at t rs n p s e in
      (
        touch n (store p (set_deleted r') t),
        d,
        subst
            (λ x.
              Represents get_key (touch n (store p (set_deleted r') t))
                (replace n (set_deleted x) rs))
            (some_inj r' r (sym l' ∙ l)) s',
      )

  -- A change of a row that keeps its id and key changes that row of the list.
  pub update_in_place-Represents :
      (change : Table → Outcome (ℕ × Row)) (t : Table) (rs : List Row) (n p : ℕ) (r x : Row)
      → Represents get_key t rs
      → change t ≡ ok (p, x)
      → get_elem? t.auto_increment_index n ≡ some p
      → get_elem? rs n ≡ some r
      → x.id ≡ n
      → get_key x.columns ≡ get_key r.columns
      → (t' : Table) × (update_in_place change t ≡ ok t') × Represents get_key t' (replace n x rs)
  unfolding update_in_place
  update_in_place-Represents change t rs n p r x s c e l i k = (
    touch x.id (store p x t),
    rw c refl,
    Represents-marked get_key (store p x t) _ _ true (store-Represents t rs n p r x s e l i k),
  )
