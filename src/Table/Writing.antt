-- ===== src/Table/Writing.antt =====
-- `write` of src/infrastructure/db/table/Table.cpp: the rows that changed are enough.
use tarracsh.Prelude.{
  ℕ, suc, ◌≡◌, refl, ap, sym, ◌∙◌, Bool, true, false, List, [], ◌∷◌, ◌++◌, length, length-append,
  append_assoc, append-nil, ◌==◌, if◌then◌else◌, arith, Bool-cases, inl, inr, ◌⊎◌,
}
use tarracsh.Outcome.{ok}
use tarracsh.Table.{Row, Table, DirtyType, is_marked, mark, put_row, write_rows}
use tarracsh.Table.Contents.{Stored}

-- Each row, from an id on, is marked or is in the file as it is.
abbrev pub Synced : List (ℕ × DirtyType) → ℕ → List Row → List Row → Type 0
Synced dirty k [] [] = Unit
Synced dirty k [] (x ∷ file) = ⊥
Synced dirty k (r ∷ rs) [] = (is_marked k dirty ≡ true) × Synced dirty (suc k) rs []
Synced dirty k (r ∷ rs) (x ∷ file) =
    ((is_marked k dirty ≡ true) ⊎ (x ≡ r)) × Synced dirty (suc k) rs file

put_row-end : (r : Row) (before : List Row) → put_row (length before) r before ≡ before ++ (r ∷ [])
put_row-end r [] = refl
put_row-end r (x ∷ before) = ap (λ l. x ∷ l) (put_row-end r before)

put_row-middle :
    (r x : Row) (before after : List Row)
    → put_row (length before) r (before ++ (x ∷ after)) ≡ before ++ (r ∷ after)
put_row-middle r x [] after = refl
put_row-middle r x (y ∷ before) after = ap (λ l. y ∷ l) (put_row-middle r x before after)

id_test : (m k : ℕ) → m ≡ k → (m == k) ≡ true
id_test m k h = ground (arith, h)

-- A row that is there already is put over, or passed by where it is the same.
put_round :
    (dirty : List (ℕ × DirtyType)) (k : ℕ) (r x : Row) (before file : List Row)
    → length before ≡ k
    → (is_marked k dirty ≡ true) ⊎ (x ≡ r)
    → (if is_marked k dirty then put_row k r (before ++ (x ∷ file)) else before ++ (x ∷ file))
      ≡ (before ++ (r ∷ [])) ++ file
put_round dirty k r x before file l y = elim (Bool-cases (is_marked k dirty)) [
  | inl m ↦ rw m (
      ap (λ n. put_row n r (before ++ (x ∷ file))) (sym l)
      ∙ (put_row-middle r x before file ∙ sym (append_assoc before (r ∷ []) file)))
  | inr m ↦ elim y [
    | inl n ↦ absurd (marked_or_not (is_marked k dirty) n m)
    | inr e ↦ rw m (ap (λ z. before ++ (z ∷ file)) e ∙ sym (append_assoc before (r ∷ []) file))
  ]
]
  where
    marked_or_not : (b : Bool) → b ≡ true → b ≡ false → ⊥
    marked_or_not b n m = cc

-- The loop puts the rows into the file from an id on.
pub write_rows-Synced :
    (t : Table) (k : ℕ) (ps : List ℕ) (rs before file : List Row)
    → Stored t k ps rs
    → length before ≡ k
    → Synced t.dirty_rows k rs file
    → write_rows k ps t (before ++ file) ≡ ok (before ++ rs)
unfolding write_rows
write_rows-Synced t k [] [] before [] s l y = refl
write_rows-Synced t k [] [] before (x ∷ file) s l y = absurd y
write_rows-Synced t k [] (r ∷ rs) before file s l y = absurd s
write_rows-Synced t k (p ∷ ps) [] before file s l y = absurd s
write_rows-Synced t k (p ∷ ps) (r ∷ rs) before [] (a, (i, s)) l (y, ys) =
    rw (a, id_test r.id k i, y, append-nil before)
      (ap (λ f. write_rows (suc k) ps t f)
          (ap (λ n. put_row n r before) (sym l)
            ∙ (put_row-end r before ∙ sym (append-nil (before ++ (r ∷ [])))))
        ∙ (write_rows-Synced t (suc k) ps rs (before ++ (r ∷ [])) [] s
              (omega (arith, l, length-append before (r ∷ []))) ys
            ∙ ap (λ f. ok f) (append_assoc before (r ∷ []) rs)))
write_rows-Synced t k (p ∷ ps) (r ∷ rs) before (x ∷ file) (a, (i, s)) l (y, ys) =
    rw (a, id_test r.id k i)
      (ap (λ f. write_rows (suc k) ps t f) (put_round t.dirty_rows k r x before file l y)
        ∙ (write_rows-Synced t (suc k) ps rs (before ++ (r ∷ [])) file s
              (omega (arith, l, length-append before (r ∷ []))) ys
            ∙ ap (λ f. ok f) (append_assoc before (r ∷ []) rs)))

-- Without marks the file is the rows.
pub Synced-nil : (k : ℕ) (rs file : List Row) → Synced [] k rs file → file ≡ rs
Synced-nil k [] [] y = refl
Synced-nil k [] (x ∷ file) y = absurd y
Synced-nil k (r ∷ rs) [] (y, ys) = cc
Synced-nil k (r ∷ rs) (x ∷ file) (inl y, ys) = cc
Synced-nil k (r ∷ rs) (x ∷ file) (inr y, ys) =
    ap (λ z. z ∷ file) y ∙ ap (λ l. r ∷ l) (Synced-nil (suc k) rs file ys)

pub written_now : (dirty : List (ℕ × DirtyType)) (k : ℕ) (rs : List Row) → Synced dirty k rs rs
written_now dirty k [] = tt
written_now dirty k (r ∷ rs) = (inr refl, written_now dirty (suc k) rs)

-- Marking an id leaves the other marks, and marks it.
pub mark-is_marked :
    (i j : ℕ) (d : DirtyType) (dirty : List (ℕ × DirtyType))
    → is_marked i dirty ≡ true
    → is_marked i (mark j d dirty) ≡ true
mark-is_marked i j d [] = λ h. cc
mark-is_marked i j d ((k, e) ∷ dirty) = λ h. ground (arith, h, mark-is_marked i j d dirty)

pub is_marked-mark :
    (i : ℕ) (d : DirtyType) (dirty : List (ℕ × DirtyType)) → is_marked i (mark i d dirty) ≡ true
is_marked-mark i d [] = ground arith
is_marked-mark i d ((k, e) ∷ dirty) = ground (arith, is_marked-mark i d dirty)
