-- ===== src/Table/Marks.antt =====
-- The marks of src/infrastructure/db/table/Table.cpp while rows are added and changed.
use tarracsh.Prelude.{
  ℕ, zero, suc, ◌+◌, ◌≡◌, true, List, [], ◌∷◌, ◌++◌, length, if◌then◌else◌, arith, Bool-cases, inl,
  inr, subst,
}
use tarracsh.Table.{Row, DirtyType, is_update, mark, is_marked}
use tarracsh.Table.Writing.{Synced, mark-is_marked, is_marked-mark}
use tarracsh.Table.Keys.{replace}

pub Synced-mark :
    (i : ℕ) (d : DirtyType) (dirty : List (ℕ × DirtyType)) (k : ℕ) (rs file : List Row)
    → Synced dirty k rs file
    → Synced (mark i d dirty) k rs file
Synced-mark i d dirty k [] [] y = tt
Synced-mark i d dirty k [] (x ∷ file) y = y
Synced-mark i d dirty k (r ∷ rs) [] (y, ys) =
    (mark-is_marked k i d dirty y, Synced-mark i d dirty (suc k) rs [] ys)
Synced-mark i d dirty k (r ∷ rs) (x ∷ file) (inl y, ys) =
    (inl (mark-is_marked k i d dirty y), Synced-mark i d dirty (suc k) rs file ys)
Synced-mark i d dirty k (r ∷ rs) (x ∷ file) (inr y, ys) =
    (inr y, Synced-mark i d dirty (suc k) rs file ys)

pub Synced-append :
    (dirty : List (ℕ × DirtyType)) (k : ℕ) (rs file : List Row) (r : Row)
    → Synced dirty k rs file
    → is_marked (k + length rs) dirty ≡ true
    → Synced dirty k (rs ++ (r ∷ [])) file
Synced-append dirty k [] [] r y m = (subst (λ j. is_marked j dirty ≡ true) (omega arith) m, tt)
Synced-append dirty k [] (x ∷ file) r y m = absurd y
Synced-append dirty k (z ∷ rs) [] r (y, ys) m = (
  y,
  Synced-append dirty (suc k) rs [] r ys (subst (λ j. is_marked j dirty ≡ true) (omega arith) m),
)
Synced-append dirty k (z ∷ rs) (x ∷ file) r (y, ys) m = (
  y,
  Synced-append dirty (suc k) rs file r ys (subst (λ j. is_marked j dirty ≡ true) (omega arith) m),
)

pub Synced-replace :
    (dirty : List (ℕ × DirtyType)) (k : ℕ) (rs file : List Row) (n : ℕ) (x : Row)
    → Synced dirty k rs file
    → is_marked (k + n) dirty ≡ true
    → Synced dirty k (replace n x rs) file
Synced-replace dirty k [] file n x y m = y
Synced-replace dirty k (r ∷ rs) [] zero x (y, ys) m = (y, ys)
Synced-replace dirty k (r ∷ rs) (z ∷ file) zero x (y, ys) m =
    (inl (subst (λ j. is_marked j dirty ≡ true) (omega arith) m), ys)
Synced-replace dirty k (r ∷ rs) [] (suc n) x (y, ys) m = (
  y,
  Synced-replace dirty (suc k) rs [] n x ys (subst (λ j. is_marked j dirty ≡ true) (omega arith) m),
)
Synced-replace dirty k (r ∷ rs) (z ∷ file) (suc n) x (y, ys) m = (
  y,
  Synced-replace dirty (suc k) rs file n x ys
      (subst (λ j. is_marked j dirty ≡ true) (omega arith) m),
)

-- `_dirtyRows` after a change of the row with this id.
abbrev touched : ℕ → List (ℕ × DirtyType) → List (ℕ × DirtyType)
touched i dirty = if is_marked i dirty then dirty else mark i is_update dirty

touched-Synced :
    (i : ℕ) (dirty : List (ℕ × DirtyType)) (rs file : List Row)
    → Synced dirty 0 rs file
    → Synced (touched i dirty) 0 rs file
touched-Synced i dirty rs file y = elim (Bool-cases (is_marked i dirty)) [
  | inl e ↦ rw e y
  | inr e ↦ rw e (Synced-mark i is_update dirty 0 rs file y)
]

touched-is_marked : (i : ℕ) (dirty : List (ℕ × DirtyType)) → is_marked i (touched i dirty) ≡ true
touched-is_marked i dirty = elim (Bool-cases (is_marked i dirty)) [
  | inl e ↦ rw e e
  | inr e ↦ rw e (is_marked-mark i is_update dirty)
]

pub touched-replace :
    (i : ℕ) (dirty : List (ℕ × DirtyType)) (rs file : List Row) (x : Row)
    → Synced dirty 0 rs file
    → Synced (if is_marked i dirty then dirty else mark i is_update dirty) 0 (replace i x rs) file
touched-replace i dirty rs file x y =
    Synced-replace (touched i dirty) 0 rs file i x (touched-Synced i dirty rs file y)
      (subst (λ j. is_marked j (touched i dirty) ≡ true) (omega arith) (touched-is_marked i dirty))
