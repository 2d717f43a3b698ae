-- ===== src/Table/Keys.antt =====
-- The keys of the rows of a table of src/infrastructure/db/table/Table.cpp, when a row is replaced.
use tarracsh.Prelude.{
  ℕ, zero, suc, ◌≡◌, refl, ap, ap₂, sym, ◌∙◌, List, [], ◌∷◌, ◌++◌, map, get_elem?, some,
}
use tarracsh.ClassFile.Pool.{Bytes}
use tarracsh.Table.{Row}
use tarracsh.Table.Contents.{keyed, has_row, NewKeys}

abbrev pub replace : ℕ → Row → List Row → List Row
replace n x [] = []
replace zero x (r ∷ rs) = x ∷ rs
replace (suc n) x (r ∷ rs) = r ∷ replace n x rs

cons_inj : (x y : Bytes) (xs ys : List Bytes) → x ∷ xs ≡ y ∷ ys → (x ≡ y) × (xs ≡ ys)
cons_inj x y xs ys h = (cc, cc)

pub some_inj : (x y : Row) → some x ≡ some y → x ≡ y
some_inj x y h = cc

module _ (get_key : Bytes → Bytes) where
  abbrev pub keys_of : List Row → List Bytes
  keys_of rs = map (λ r. get_key r.columns) rs

  has_row-keys :
      (key : Bytes) (rs rs' : List Row)
      → keys_of rs ≡ keys_of rs'
      → has_row get_key key rs ≡ has_row get_key key rs'
  has_row-keys key [] [] h = refl
  has_row-keys key [] (r ∷ rs') h = cc
  has_row-keys key (r ∷ rs) [] h = cc
  has_row-keys key (r ∷ rs) (r' ∷ rs') h =
      let (k, ks) =
        cons_inj (get_key r.columns) (get_key r'.columns) (keys_of rs) (keys_of rs') h in
      rw (k, has_row-keys key rs rs' ks) refl

  pub keyed-keys :
      (ps : List ℕ) (rs rs' : List Row)
      → keys_of rs ≡ keys_of rs'
      → keyed get_key ps rs ≡ keyed get_key ps rs'
  keyed-keys [] rs rs' h = refl
  keyed-keys (p ∷ ps) [] [] h = refl
  keyed-keys (p ∷ ps) [] (r ∷ rs') h = cc
  keyed-keys (p ∷ ps) (r ∷ rs) [] h = cc
  keyed-keys (p ∷ ps) (r ∷ rs) (r' ∷ rs') h =
      let (k, ks) =
        cons_inj (get_key r.columns) (get_key r'.columns) (keys_of rs) (keys_of rs') h in
      rw (k, keyed-keys ps rs rs' ks) refl

  keys_of-append :
      (rs : List Row) (r : Row) → keys_of (rs ++ (r ∷ [])) ≡ keys_of rs ++ (get_key r.columns ∷ [])
  keys_of-append [] r = refl
  keys_of-append (x ∷ rs) r = ap (λ l. get_key x.columns ∷ l) (keys_of-append rs r)

  pub NewKeys-keys :
      (earlier earlier' rs rs' : List Row)
      → keys_of earlier ≡ keys_of earlier'
      → keys_of rs ≡ keys_of rs'
      → NewKeys get_key earlier rs
      → NewKeys get_key earlier' rs'
  NewKeys-keys earlier earlier' [] [] e h n = tt
  NewKeys-keys earlier earlier' [] (r ∷ rs') e h n = cc
  NewKeys-keys earlier earlier' (r ∷ rs) [] e h n = cc
  NewKeys-keys earlier earlier' (r ∷ rs) (r' ∷ rs') e h (n, ns) =
      let (k, ks) =
        cons_inj (get_key r.columns) (get_key r'.columns) (keys_of rs) (keys_of rs') h in
      (
        sym (has_row-keys (get_key r'.columns) earlier earlier' e)
            ∙ (ap (λ q. has_row get_key q earlier) (sym k) ∙ n),
        NewKeys-keys (earlier ++ (r ∷ [])) (earlier' ++ (r' ∷ [])) rs rs'
            (keys_of-append earlier r
              ∙ (ap₂ (λ l q. l ++ (q ∷ [])) e k ∙ sym (keys_of-append earlier' r')))
            ks ns,
      )

  pub keys_of-replace :
      (n : ℕ) (x r : Row) (rs : List Row)
      → get_elem? rs n ≡ some r
      → get_key x.columns ≡ get_key r.columns
      → keys_of (replace n x rs) ≡ keys_of rs
  keys_of-replace n x r [] h k = cc
  keys_of-replace zero x r (y ∷ rs) h k =
      ap (λ z. z ∷ keys_of rs) (k ∙ ap (λ q. get_key q.columns) (sym (some_inj y r h)))
  keys_of-replace (suc n) x r (y ∷ rs) h k =
      ap (λ l. get_key y.columns ∷ l) (keys_of-replace n x r rs h k)
