-- ===== src/Diff/Interfaces.antt =====
-- The comparison of interfaces in src/interfaces/cfdiff/ClassfileDiffApp.cpp, by what each side has
-- alone.
use tarracsh.Prelude.{
  ℕ, ◌+◌, ◌%◌, ◌^◌, ◌≡◌, refl, sym, ap, ◌∙◌, subst, false, List, [], ◌∷◌, Option, none, some,
  length, All, Option-cases, Bool-cases, inl, inr, arith,
}
use tarracsh.Outcome.{Outcome, ok, ok_lem, >>=-ok}
use tarracsh.ClassFile.Pool.{Bytes, ConstantPool}
use tarracsh.ClassFile.Entries.{get_class_info_name}
use tarracsh.Digest.Class.{equal}
use tarracsh.StringPool.Layout.{equal_sound}
use tarracsh.Diff.Names.{NameMap, find, put, erase, by_name}
use tarracsh.Diff.Compare.{
  add_differences, match_interface, match_interfaces, count_rest, compare_interfaces,
}
use tarracsh.Diff.Readable.{HasName, by_name-Kept}

abbrev Names : Type 0
Names = NameMap ℕ

equal_sym : (s t : Bytes) → equal s t ≡ equal t s
equal_sym s t = elim (Bool-cases (equal s t)) [
  | inl e ↦ subst (λ u. equal s u ≡ equal u s) (equal_sound s t e) refl
  | inr e ↦ elim (Bool-cases (equal t s)) [
    | inl f ↦ subst (λ u. equal u t ≡ equal t u) (equal_sound t s f) refl
    | inr f ↦ e ∙ sym f
  ]
]

-- A lookup behind another entry.
find_other : (k n : Bytes) (i : ℕ) (m : Names) → equal k n ≡ false → find k ((n, i) ∷ m) ≡ find k m
unfolding find
find_other k n i m e = rw e refl

abbrev one_if_none : Option ℕ → ℕ
one_if_none none = 1
one_if_none (some i) = 0

-- How many names of the first map the second does not have.
abbrev missing : Names → Names → ℕ
missing [] m = 0
missing ((n, i) ∷ ls) m = one_if_none (find n m) + missing ls m

-- No name twice.
abbrev Distinct : Names → Type 0
Distinct [] = Unit
Distinct ((n, i) ∷ m) = (find n m ≡ none) × Distinct m

find-put : (k n : Bytes) (i : ℕ) (m : Names) → equal k n ≡ false → find k (put n i m) ≡ find k m
unfolding find put
find-put k n i [] e = rw e refl
find-put k n i ((x, j) ∷ m) e = elim (Bool-cases (equal n x)) [
  | inl f ↦ rw (f, sym (equal_sound n x f), e) refl
  | inr f ↦
      rw f (elim (Bool-cases (equal k x)) [ inl g ↦ rw g refl | inr g ↦ rw g (find-put k n i m e) ])
]

put-Distinct : (n : Bytes) (i : ℕ) (m : Names) → Distinct m → Distinct (put n i m)
unfolding put find
put-Distinct n i [] d = (refl, tt)
put-Distinct n i ((x, j) ∷ m) (p, d) = elim (Bool-cases (equal n x)) [
  | inl f ↦ rw f (p, d)
  | inr f ↦ rw f (find-put x n i m (equal_sym x n ∙ f) ∙ p, put-Distinct n i m d)
]

by_name-Distinct :
    (name_of : ℕ → Outcome Bytes) (m : Names) (xs : List ℕ) (m' : Names)
    → Distinct m
    → by_name name_of m xs ≡ ok m'
    → Distinct m'
unfolding by_name
by_name-Distinct name_of m [] m' d e = subst Distinct (ok_lem e) d
by_name-Distinct name_of m (x ∷ xs) m' d e =
    let (name, found, e') = >>=-ok (name_of x) _ m' e in
    by_name-Distinct name_of (put name x m) xs m' (put-Distinct name x m d) e'

-- Erasing a name changes no other lookup.
find-erase : (k n : Bytes) (m : Names) → equal k n ≡ false → find k (erase n m) ≡ find k m
unfolding find erase
find-erase k n [] e = refl
find-erase k n ((x, j) ∷ m) e = elim (Bool-cases (equal n x)) [
  | inl f ↦ rw (f, sym (equal_sound n x f), e) refl
  | inr f ↦
      rw f (elim (Bool-cases (equal k x)) [ inl g ↦ rw g refl | inr g ↦ rw g (find-erase k n m e) ])
]

erase-Distinct : (n : Bytes) (m : Names) → Distinct m → Distinct (erase n m)
unfolding erase
erase-Distinct n [] d = tt
erase-Distinct n ((x, j) ∷ m) (p, d) = elim (Bool-cases (equal n x)) [
  | inl f ↦ rw f d
  | inr f ↦ rw f (find-erase x n m (equal_sym x n ∙ f) ∙ p, erase-Distinct n m d)
]

one_if_none-other :
    (k n : Bytes) (i : ℕ) (m : Names)
    → equal k n ≡ false
    → one_if_none (find k ((n, i) ∷ m)) ≡ one_if_none (find k m)
one_if_none-other k n i m e = ap one_if_none (find_other k n i m e)

-- A name that is not looked for does not count.
missing-other :
    (ls : Names) (n : Bytes) (i : ℕ) (m : Names)
    → find n ls ≡ none
    → missing ls ((n, i) ∷ m) ≡ missing ls m
unfolding find
missing-other [] n i m = λ e. refl
missing-other ((k, j) ∷ ls) n i m = elim (Bool-cases (equal n k)) [
  | inl f ↦ rw f (λ e. cc)
  | inr f ↦
      rw f (λ e.
        omega (arith, one_if_none-other k n i m (equal_sym k n ∙ f), missing-other ls n i m e))
]

missing-erase :
    (ls : Names) (n : Bytes) (m : Names) → find n ls ≡ none → missing ls (erase n m) ≡ missing ls m
unfolding find
missing-erase [] n m = λ e. refl
missing-erase ((k, j) ∷ ls) n m = elim (Bool-cases (equal n k)) [
  | inl f ↦ rw f (λ e. cc)
  | inr f ↦ rw f (λ e.
      omega (arith, ap one_if_none (find-erase k n m (equal_sym k n ∙ f)), missing-erase ls n m e))
]

-- Erasing a name that is looked for on the other side.
missing-erase_found :
    (ls : Names) (n : Bytes) (i j : ℕ) (m : Names)
    → Distinct ls
    → find n ls ≡ some j
    → missing ls ((n, i) ∷ m) ≡ missing (erase n ls) m
unfolding find erase
missing-erase_found [] n i j m d = λ e. cc
missing-erase_found ((k, a) ∷ ls) n i j m (p, d) = elim (Bool-cases (equal n k)) [
  | inl f ↦
      rw (f, equal_sym k n, f)
        (λ e. omega (
          arith,
          missing-other ls n i m (subst (λ x. find x ls ≡ none) (sym (equal_sound n k f)) p),
        ))
  | inr f ↦ rw (f, equal_sym k n, f) (λ e. omega (arith, missing-erase_found ls n i j m d e))
]

missing-nothing : (ls : Names) → missing ls [] ≡ length ls
unfolding find
missing-nothing [] = refl
missing-nothing (l ∷ ls) = omega (arith, missing-nothing ls)

-- A round of the first loop.
match_interfaces_step :
    (n : Bytes) (i : ℕ) (lefts rights : Names) (count : ℕ) (found : Option ℕ)
    → find n rights ≡ found
    → match_interfaces ((n, i) ∷ lefts) rights count ≡ (
        let (rights', count') = match_interface n found rights count in
        match_interfaces lefts rights' count')
unfolding match_interfaces
match_interfaces_step n i lefts rights count found e =
    ap
      (λ o.
        let (rights', count') = match_interface n o rights count in
        match_interfaces lefts rights' count')
      e

loops_end :
    (rights : Names) (count : ℕ)
    → count_rest (match_interfaces [] rights count) ≡ (count + 0 + missing rights []) % 2 ^ 32
unfolding match_interfaces count_rest add_differences
loops_end rights count = ap (λ n. (count + n) % 2 ^ 32) (sym (missing-nothing rights)) ∙ omega arith

-- The counter after the two loops.
loops_count :
    (lefts rights : Names) (count : ℕ)
    → Distinct lefts
    → Distinct rights
    → count_rest (match_interfaces lefts rights count)
      ≡ (count + missing lefts rights + missing rights lefts) % 2 ^ 32
unfolding count_rest match_interface add_differences
loops_count [] rights count d d' = loops_end rights count
loops_count ((n, i) ∷ lefts) rights count (p, d) d' = elim (Option-cases (find n rights)) [
  | inl e ↦
      rw (match_interfaces_step n i lefts rights count none e, e)
        (loops_count lefts rights ((count + 1) % 2 ^ 32) d d'
          ∙ omega (arith, missing-other rights n i lefts e))
  | inr (j, e) ↦
      rw (match_interfaces_step n i lefts rights count (some j) e, e)
        (loops_count lefts (erase n rights) count d (erase-Distinct n rights d')
          ∙ omega
              (arith, missing-erase lefts n rights p, missing-erase_found rights n i j lefts d' e))
]

named_map :
    (pool : ConstantPool) (is : List ℕ)
    → All (λ i. HasName (get_class_info_name pool i)) is
    → (m : Names) × (by_name (get_class_info_name pool) [] is ≡ ok m) × Distinct m
named_map pool is h =
    let (m, made, kept) =
      by_name-Kept (λ i. HasName (get_class_info_name pool i)) (get_class_info_name pool) [] is
        (λ i named. named) tt h in
    (m, made, by_name-Distinct (get_class_info_name pool) [] is m tt made)

-- The interfaces of two classes differ by as much whichever class stands on the left, when the names
-- of all of them can be looked up.
pub compare_interfaces_comm :
    (left right : ConstantPool) (ls rs : List ℕ) (count : ℕ)
    → All (λ i. HasName (get_class_info_name left i)) ls
    → All (λ i. HasName (get_class_info_name right i)) rs
    → compare_interfaces left right ls rs count ≡ compare_interfaces right left rs ls count
unfolding compare_interfaces
compare_interfaces_comm left right ls rs count hl hr =
    let (lefts, el, kl) = named_map left ls hl in
    let (rights, er, kr) = named_map right rs hr in
    rw (el, er)
      (ap ok (
        loops_count lefts rights count kl kr
        ∙ (omega arith ∙ sym (loops_count rights lefts count kr kl))))
