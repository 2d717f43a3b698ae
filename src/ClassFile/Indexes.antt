-- ===== src/ClassFile/Indexes.antt =====
-- Walking over a constant pool: `getNextIndex` of src/domain/classfile/constantpool/ConstantPool.cpp, in
-- the loop that src/domain/graph/ClassfileProcessor.cpp and the printers have over it.
use tarracsh.Prelude.{
  ℕ, zero, suc, ◌+◌, ◌%◌, ◌^◌, ◌<◌, ◌≡◌, refl, ap, ◌∙◌, Bool, true, false, ◌||◌, List, [], ◌∷◌,
  Option, none, some, get_elem?, drop, length, ltb, leb, lt→ltb, ltb-ge, if◌then◌else◌, arith,
}
use tarracsh.Outcome.{Outcome, ok, out_of_fuel, ◌>>=◌}
use tarracsh.ClassFile.Pool.{Constant, ConstantPool}

-- `_constantPoolIndex[index] != nullptr`
abbrev pub is_entry : Option (Option Constant) → Bool
is_entry (some (some c)) = true
is_entry (some none) = false
is_entry none = false

-- `getNextIndex`; an index is 16 bits wide.
unfoldable pub get_next_index : ℕ → ConstantPool → ℕ → Outcome ℕ
get_next_index zero pool index = out_of_fuel
get_next_index (suc f) pool index =
    let next = (index + 1) % 2 ^ 16 in
    let more = get_next_index f pool next in
    if ltb index (length pool)
    then if leb (length pool) next || is_entry (get_elem? pool next) then ok next else more
    else ok index

-- The indexes of `for (index; index < getPoolSize(); index = getNextIndex(index))`.
unfoldable pub visit_indexes : ℕ → ConstantPool → ℕ → Outcome (List ℕ)
visit_indexes zero pool index = out_of_fuel
visit_indexes (suc f) pool index =
    let more = get_next_index (length pool) pool index >>= λ next. visit_indexes f pool next in
    if ltb index (length pool % 2 ^ 16) then (more >>= λ rest. ok (index ∷ rest)) else ok []

-- The places of the entries among slots, of which the first is at `i`.
pub entries_at : ℕ → ConstantPool → List ℕ
entries_at i [] = []
entries_at i (none ∷ slots) = entries_at (suc i) slots
entries_at i (some c ∷ slots) = i ∷ entries_at (suc i) slots

-- The first of them, or the end.
abbrev first_at : ℕ → ConstantPool → ℕ
first_at i [] = i
first_at i (none ∷ slots) = first_at (suc i) slots
first_at i (some c ∷ slots) = i

get_elem?-drop : {A : Type 0} (k : ℕ) (xs : List A) → get_elem? xs k ≡ get_elem? (drop k xs) 0
get_elem?-drop zero xs = refl
get_elem?-drop (suc k) [] = refl
get_elem?-drop (suc k) (x ∷ xs) = get_elem?-drop k xs

drop_next : {A : Type 0} (k : ℕ) (xs : List A) → drop (suc k) xs ≡ drop 1 (drop k xs)
drop_next zero [] = refl
drop_next zero (x ∷ xs) = refl
drop_next (suc k) [] = refl
drop_next (suc k) (x ∷ xs) = drop_next k xs

leb-le : (a b : ℕ) → b < a → leb a b ≡ false
leb-le a b h = ground arith

leb_self : (a : ℕ) → leb a a ≡ true
leb_self a = ground arith

-- The slots from `i` on are the last of the pool.
record At (pool : ConstantPool) (i : ℕ) (slots : ConstantPool) : Type 0 where
  is_rest : drop i pool ≡ slots
  count : i + length slots ≡ length pool

At-next :
    (pool : ConstantPool) (i : ℕ) (x : Option Constant) (slots : ConstantPool)
    → At pool i (x ∷ slots)
    → At pool (suc i) slots
At-next pool i x slots h = record {
  is_rest = drop_next i pool ∙ ap (drop 1) h.is_rest;
  count = omega (arith, h.count);
}

-- A round of `getNextIndex` within the pool.
get_next_index_round :
    (pool : ConstantPool) (f i : ℕ)
    → length pool < 2 ^ 16
    → i < length pool
    → get_next_index (suc f) pool i ≡ (
        if leb (length pool) (suc i) || is_entry (get_elem? pool (suc i))
        then ok (suc i)
        else get_next_index f pool (suc i))
unfolding get_next_index
get_next_index_round pool f i small inside =
    let next : (i + 1) % 2 ^ 16 ≡ suc i = omega (arith, small, inside) in
    rw (lt→ltb i (length pool) inside, next) refl

get_next_index-first_at :
    (pool : ConstantPool) (f i : ℕ) (slots : ConstantPool)
    → length pool < 2 ^ 16
    → At pool (suc i) slots
    → length slots < f
    → get_next_index f pool i ≡ ok (first_at (suc i) slots)
get_next_index-first_at pool zero i slots small h k = absurd (omega (arith, k))
get_next_index-first_at pool (suc f) i [] small h k =
    let last : leb (length pool) (suc i) ≡ true = ground (arith, h.count) in
    get_next_index_round pool f i small (omega (arith, h.count)) ∙ rw last refl
get_next_index-first_at pool (suc f) i (none ∷ slots) small h k =
    let slot : get_elem? pool (suc i) ≡ some none =
      get_elem?-drop (suc i) pool ∙ ap (λ (xs : ConstantPool). get_elem? xs 0) h.is_rest in
    get_next_index_round pool f i small (omega (arith, h.count))
    ∙ rw (leb-le (length pool) (suc i) (omega (arith, h.count)), slot)
        (get_next_index-first_at pool f (suc i) slots small (At-next pool (suc i) none slots h)
          (omega (arith, k)))
get_next_index-first_at pool (suc f) i (some c ∷ slots) small h k =
    let slot : get_elem? pool (suc i) ≡ some (some c) =
      get_elem?-drop (suc i) pool ∙ ap (λ (xs : ConstantPool). get_elem? xs 0) h.is_rest in
    get_next_index_round pool f i small (omega (arith, h.count))
    ∙ rw (leb-le (length pool) (suc i) (omega (arith, h.count)), slot) refl

visit_indexes-first_at :
    (pool : ConstantPool) (f i : ℕ) (slots : ConstantPool)
    → length pool < 2 ^ 16
    → At pool i slots
    → length slots < f
    → visit_indexes f pool (first_at i slots) ≡ ok (entries_at i slots)
unfolding visit_indexes entries_at
visit_indexes-first_at pool zero i slots small h k = absurd (omega (arith, k))
visit_indexes-first_at pool (suc f) i [] small h k =
    let beyond : ltb i (length pool % 2 ^ 16) ≡ false = ltb-ge i _ (omega (arith, h.count)) in
    rw beyond refl
visit_indexes-first_at pool (suc f) i (none ∷ slots) small h k =
    visit_indexes-first_at pool (suc f) (suc i) slots small (At-next pool i none slots h)
      (omega (arith, k))
visit_indexes-first_at pool (suc f) i (some c ∷ slots) small h k =
    let inside : ltb i (length pool % 2 ^ 16) ≡ true = lt→ltb i _ (omega (arith, h.count, small)) in
    let later = At-next pool i (some c) slots h in
    rw
      (
        inside,
        get_next_index-first_at pool (length pool) i slots small later (omega (arith, h.count)),
        visit_indexes-first_at pool f (suc i) slots small later (omega (arith, k)),
      )
      refl

-- Of a pool that is not empty, with fewer than 2 ^ 16 slots: the loop ends, and visits the places of
-- the entries, each once and in order, over the empty slots behind longs and doubles.
pub visit_indexes-entries_at :
    (c : Constant) (slots : ConstantPool)
    → suc (suc (length slots)) < 2 ^ 16
    → visit_indexes (length (none ∷ some c ∷ slots)) (none ∷ some c ∷ slots) 1
      ≡ ok (entries_at 0 (none ∷ some c ∷ slots))
unfolding entries_at
visit_indexes-entries_at c slots small =
    visit_indexes-first_at (none ∷ some c ∷ slots) (length (none ∷ some c ∷ slots)) 1
      (some c ∷ slots) small (record { is_rest = refl; count = omega arith }) (omega arith)
