-- ===== src/Table/Contents.antt =====
-- The contents of a table of src/infrastructure/db/table/Table.cpp as a list of rows by id.
use tarracsh.Prelude.{
  ℕ, suc, ◌+◌, ◌<◌, ◌≡◌, refl, ap, sym, ◌∙◌, Bool, true, false, List, [], ◌∷◌, ◌++◌, length, none,
  some, All, append_assoc, append-nil, ◌==◌, if◌then◌else◌, arith, Bool-cases, inl, inr, subst,
}
use tarracsh.ClassFile.Pool.{Bytes}
use tarracsh.Digest.Class.{equal}
use tarracsh.Table.{Row, Table, lookup, store}

-- The address is none of these.
abbrev pub ApartFrom : ℕ → List ℕ → Type 0
ApartFrom p ps = All (λ q. (q == p) ≡ false) ps

-- No two of the addresses are the same.
abbrev pub Apart : List ℕ → Type 0
Apart [] = Unit
Apart (p ∷ ps) = ApartFrom p ps × Apart ps

pub every : {A : Type 0} (P : A → Type 0) (xs : List A) → ((x : A) → P x) → All P xs
every P [] h = tt
every P (x ∷ xs) h = (h x, every P xs h)

-- The rows stand at these addresses and have their places as ids.
abbrev pub Stored : Table → ℕ → List ℕ → List Row → Type 0
Stored t k [] [] = Unit
Stored t k (p ∷ ps) (r ∷ rs) = (t.row_at p ≡ some r) × ((r.id ≡ k) × Stored t (suc k) ps rs)
Stored t k ps rs = ⊥

module _ (get_key : Bytes → Bytes) where
  -- The map from the keys of the rows to their addresses.
  abbrev pub keyed : List ℕ → List Row → List (Bytes × ℕ)
  keyed [] rs = []
  keyed (p ∷ ps) [] = []
  keyed (p ∷ ps) (r ∷ rs) = (get_key r.columns, p) ∷ keyed ps rs

  abbrev pub has_row : Bytes → List Row → Bool
  has_row key [] = false
  has_row key (r ∷ rs) =
      let rest = has_row key rs in if equal (get_key r.columns) key then true else rest

  -- No row has the key of one before it, or of one of `earlier`.
  abbrev pub NewKeys : List Row → List Row → Type 0
  NewKeys earlier [] = Unit
  NewKeys earlier (r ∷ rs) =
      (has_row (get_key r.columns) earlier ≡ false) × NewKeys (earlier ++ (r ∷ [])) rs

-- The table holds these rows, by their ids from 0 on.
pub record Represents (get_key : Bytes → Bytes) (t : Table) (rs : List Row) : Type 0 where
  pub stored : Stored t 0 t.auto_increment_index rs
  pub key_map : t.rows ≡ keyed get_key t.auto_increment_index rs
  pub new_keys : NewKeys get_key [] rs
  pub apart : Apart t.auto_increment_index
  pub allocated : All (λ p. p < t.next_row) t.auto_increment_index

pub Stored-same :
    (t t' : Table) (k : ℕ) (ps : List ℕ) (rs : List Row)
    → All (λ p. t'.row_at p ≡ t.row_at p) ps
    → Stored t k ps rs
    → Stored t' k ps rs
Stored-same t t' k [] [] h s = tt
Stored-same t t' k [] (r ∷ rs) h s = s
Stored-same t t' k (p ∷ ps) [] h s = s
Stored-same t t' k (p ∷ ps) (r ∷ rs) (h, hs) (a, (i, s)) =
    (h ∙ a, (i, Stored-same t t' (suc k) ps rs hs s))

-- A store elsewhere leaves the rows.
pub store-ApartFrom :
    (t : Table) (p : ℕ) (r : Row) (ps : List ℕ)
    → ApartFrom p ps
    → All (λ q. (store p r t).row_at q ≡ t.row_at q) ps
store-ApartFrom t p r [] h = tt
store-ApartFrom t p r (q ∷ ps) (h, hs) = (rw h refl, store-ApartFrom t p r ps hs)

pub Stored-append :
    (t : Table) (k : ℕ) (ps : List ℕ) (rs : List Row) (p : ℕ) (r : Row)
    → Stored t k ps rs
    → t.row_at p ≡ some r
    → r.id ≡ k + length ps
    → Stored t k (ps ++ (p ∷ [])) (rs ++ (r ∷ []))
Stored-append t k [] [] p r s a i = (a, (omega (arith, i), tt))
Stored-append t k [] (q ∷ rs) p r s a i = absurd s
Stored-append t k (q ∷ ps) [] p r s a i = absurd s
Stored-append t k (q ∷ ps) (x ∷ rs) p r (b, (j, s)) a i =
    (b, (j, Stored-append t (suc k) ps rs p r s a (omega (arith, i))))

pub Stored-length :
    (t : Table) (k : ℕ) (ps : List ℕ) (rs : List Row) → Stored t k ps rs → length ps ≡ length rs
Stored-length t k [] [] s = refl
Stored-length t k [] (r ∷ rs) s = absurd s
Stored-length t k (p ∷ ps) [] s = absurd s
Stored-length t k (p ∷ ps) (r ∷ rs) (a, (i, s)) = ap {B = ℕ} suc (Stored-length t (suc k) ps rs s)

pub keyed-append :
    (get_key : Bytes → Bytes) (t : Table) (k : ℕ) (ps : List ℕ) (rs : List Row) (p : ℕ) (r : Row)
    → Stored t k ps rs
    → keyed get_key (ps ++ (p ∷ [])) (rs ++ (r ∷ []))
      ≡ keyed get_key ps rs ++ ((get_key r.columns, p) ∷ [])
keyed-append get_key t k [] [] p r s = refl
keyed-append get_key t k [] (q ∷ rs) p r s = absurd s
keyed-append get_key t k (q ∷ ps) [] p r s = absurd s
keyed-append get_key t k (q ∷ ps) (x ∷ rs) p r (a, (i, s)) =
    ap (λ m. (get_key x.columns, q) ∷ m) (keyed-append get_key t (suc k) ps rs p r s)

pub same_sym : (p q : ℕ) → (q == p) ≡ false → (p == q) ≡ false
same_sym p q h = ground (arith, h)

pub ApartFrom-append :
    (p q : ℕ) (ps : List ℕ) → ApartFrom p ps → (q == p) ≡ false → ApartFrom p (ps ++ (q ∷ []))
ApartFrom-append p q [] h k = (k, tt)
ApartFrom-append p q (x ∷ ps) (h, hs) k = (h, ApartFrom-append p q ps hs k)

pub Apart-append : (ps : List ℕ) (p : ℕ) → Apart ps → ApartFrom p ps → Apart (ps ++ (p ∷ []))
Apart-append [] p h k = (tt, tt)
Apart-append (q ∷ ps) p (h, hs) (k, ks) =
    (ApartFrom-append q p ps h (same_sym p q k), Apart-append ps p hs ks)

pub NewKeys-append :
    (get_key : Bytes → Bytes) (earlier rs : List Row) (r : Row)
    → NewKeys get_key earlier rs
    → has_row get_key (get_key r.columns) (earlier ++ rs) ≡ false
    → NewKeys get_key earlier (rs ++ (r ∷ []))
NewKeys-append get_key earlier [] r h k =
    (subst (λ l. has_row get_key (get_key r.columns) l ≡ false) (append-nil earlier) k, tt)
NewKeys-append get_key earlier (x ∷ rs) r (h, hs) k = (
  h,
  NewKeys-append get_key (earlier ++ (x ∷ [])) rs r hs (
      subst (λ l. has_row get_key (get_key r.columns) l ≡ false)
        (sym (append_assoc earlier (x ∷ []) rs)) k),
)

-- A key that no row has is not in the map.
pub lookup-keyed :
    (get_key : Bytes → Bytes) (key : Bytes) (ps : List ℕ) (rs : List Row)
    → has_row get_key key rs ≡ false
    → lookup key (keyed get_key ps rs) ≡ none
lookup-keyed get_key key [] rs = λ h. refl
lookup-keyed get_key key (p ∷ ps) [] = λ h. refl
lookup-keyed get_key key (p ∷ ps) (r ∷ rs) = elim (Bool-cases (equal (get_key r.columns) key)) [
  | inl e ↦ rw e (λ h. cc)
  | inr e ↦ rw e (λ h. lookup-keyed get_key key ps rs h)
]
