-- ===== src/Examples/Strings.antt =====
-- The theorems on the string pool, at concrete inputs.
use tarracsh.Prelude.{
  ℕ, ◌≡◌, refl, ◌↔◌, true, false, List, [], ◌∷◌, length, none, some, inl, inr, codes, arith, ◌≢◌,
}
use tarracsh.Outcome.{ok, fault, out_of_fuel, ◌>>=◌}
use tarracsh.ClassFile.Pool.{Bytes}
use tarracsh.StringPool.{
  Node, StringPool, c_string, text_of, has_key, find, assign, assign_at, append, realloc_pool,
  internal_add, get_c_string, make_pool, read, write,
}
use tarracsh.StringPool.Layout.{Represents, place_after, with_string}
use tarracsh.StringPool.Refinement.{internal_add-refines}
use tarracsh.StringPool.Identity.{internal_add-same}
use tarracsh.StringPool.Reopening.{read-write}
use tarracsh.StringPool.Termination.{read-ends}
use tarracsh.StringPool.Dangling.{internal_add-moved}

abbrev count : Bytes → ℕ
count s = length s

abbrev entry : ℕ → ℕ → ℕ → Node
entry generation offset size = record {
  key = record { generation = generation; offset = offset; size = size };
  hash_code = size;
  value = offset;
}

-- A pool of five bytes with the empty string and "ab".
abbrev two_strings : StringPool
two_strings = record {
  memory = 0 ∷ 97 ∷ 98 ∷ 0 ∷ [];
  size = 5;
  generation = 0;
  entries = entry 0 0 0 ∷ entry 0 1 2 ∷ [];
  is_dirty = true;
}

abbrev texts : List Bytes
texts = [] ∷ codes "ab" ∷ []

two_strings-Represents : Represents count two_strings texts
unfolding text_of
two_strings-Represents = record {
  contents = refl;
  index = (
    record { shows = refl; key_size = refl; code = refl; value_offset = refl },
    (record { shows = refl; key_size = refl; code = refl; value_offset = refl }, tt),
  );
  zero_free = (refl, (refl, tt));
  distinct = (refl, (refl, tt));
}

-- The pool with "c" besides, in a block of twice the size.
abbrev three_strings : ℕ → StringPool
three_strings generation = record {
  memory = 0 ∷ 97 ∷ 98 ∷ 0 ∷ 99 ∷ 0 ∷ [];
  size = 10;
  generation = generation;
  entries = entry 0 0 0 ∷ entry 0 1 2 ∷ entry generation 4 1 ∷ [];
  is_dirty = true;
}

add-c : internal_add count false (codes "c") two_strings ≡ ok (4, three_strings 0)
unfolding internal_add find has_key text_of append assign_at assign c_string realloc_pool
add-c = refl

add-c_moved : internal_add count true (codes "c") two_strings ≡ ok (4, three_strings 1)
unfolding internal_add find has_key text_of append assign_at assign c_string realloc_pool
add-c_moved = refl

add-ab : internal_add count false (codes "ab") (three_strings 0) ≡ ok (1, three_strings 0)
unfolding internal_add find has_key text_of
add-ab = refl

two_strings-ab : get_c_string 1 two_strings ≡ ok (codes "ab")
unfolding get_c_string c_string
two_strings-ab = refl

internal_add-refines_example :
    (p' : StringPool) × (internal_add count false (codes "c") two_strings
      ≡ ok (place_after (codes "c") texts, p'))
    × Represents count p' (with_string (codes "c") texts)
internal_add-refines_example =
    internal_add-refines count false (codes "c") two_strings texts two_strings-Represents refl
      (inr (refl, omega arith))

internal_add-same_example : (◌≡◌ {A = ℕ} 4 1) ↔ (codes "c" ≡ codes "ab")
internal_add-same_example =
    internal_add-same count false false (codes "c") (codes "ab") 4 1 two_strings (three_strings 0)
      (three_strings 0) texts two_strings-Represents refl refl (inr (refl, omega arith))
      (inl (omega arith)) add-c add-ab

read-write_example :
    (p' : StringPool) × ((make_pool count >>= λ q. read count (write none two_strings) q)
      ≡ ok (true, p'))
    × Represents count p' texts
    × (p'.memory ≡ two_strings.memory)
read-write_example = read-write count two_strings (codes "ab" ∷ []) none two_strings-Represents refl

read-ends_example : read count (some (codes "ab")) two_strings ≢ out_of_fuel
read-ends_example = read-ends count (some (codes "ab")) two_strings

internal_add-moved_example : internal_add count false (codes "ab") (three_strings 1) ≡ fault
internal_add-moved_example =
    internal_add-moved count false (codes "ab") (codes "c") 4 1 two_strings (three_strings 1) texts
      two_strings-Represents refl (omega arith) add-c_moved refl refl
