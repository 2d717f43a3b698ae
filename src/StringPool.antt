-- ===== src/StringPool.antt =====
-- src/infrastructure/db/StringPool.{h,cpp}: the bytes of the strings, and the hash of views into them.
-- The writer's file is an argument or a result: the bytes of it, or none where it does not exist.
-- std::hash is a parameter.
pub mod Layout
pub mod Lookup
pub mod Adding
pub mod Refinement
pub mod Growth
pub mod Identity
pub mod Reopening
pub mod Termination
pub mod Loading
pub mod Dangling
use tarracsh.Prelude.{
  ℕ, zero, suc, ◌+◌, ◌*◌, Bool, true, false, List, [], ◌∷◌, ◌++◌, length, take, drop, Option, none,
  some, leb, ltb, ◌==◌, ◌&&◌, if◌then◌else◌,
}
use tarracsh.Outcome.{Outcome, ok, fault, out_of_fuel, ◌>>=◌}
use tarracsh.ClassFile.Pool.{Bytes}
use tarracsh.Digest.Class.{equal}

-- A std::string_view: an address in one of the blocks that `_pool` has pointed to, and a length.
pub record View : Type 0 where
  pub generation : ℕ
  pub offset : ℕ
  pub size : ℕ

-- A node of `_hash`, with the hash code that the container keeps.
pub record Node : Type 0 where
  pub key : View
  pub hash_code : ℕ
  pub value : ℕ

-- `memory` is what `_pool` holds below `_position`, and so `_position` is its length; `generation`
-- counts the blocks that it has pointed to.
pub record StringPool : Type 0 where
  pub memory : Bytes
  pub size : ℕ
  pub generation : ℕ
  pub entries : List Node
  pub is_dirty : Bool

abbrev pub position : StringPool → ℕ
position p = length p.memory

abbrev pub start_pool_size : ℕ
start_pool_size = 1024 * 1024 * 500

-- The bytes up to the first zero. No byte is known behind the last one written.
unfoldable pub c_string : Bytes → Outcome Bytes
c_string [] = fault
c_string (b ∷ bytes) =
    let rest = c_string bytes in if b == 0 then ok [] else (rest >>= λ text. ok (b ∷ text))

unfoldable pub get_c_string : ℕ → StringPool → Outcome Bytes
get_c_string item p = c_string (drop item p.memory)

-- What a view shows. One of no length reads nothing.
unfoldable pub text_of : StringPool → View → Outcome Bytes
text_of p v =
    if v.size == 0
    then ok []
    else if v.generation == p.generation && leb (v.offset + v.size) (position p)
    then ok (take v.size (drop v.offset p.memory))
    else fault

abbrev pub has_zero : Bytes → Bool
has_zero [] = false
has_zero (b ∷ bytes) = if b == 0 then true else has_zero bytes

-- `realloc`, which leaves the block where it is or moves it; it succeeds.
unfoldable pub realloc_pool : Bool → StringPool → StringPool
realloc_pool moves p = record p {
  size = p.size * 2;
  generation = if moves then suc p.generation else p.generation;
}

-- The pool when `internalAdd` has looked whether it has to grow.
abbrev pub grown : Bool → Bytes → StringPool → StringPool
grown moves s p = if leb p.size (length s + position p) then realloc_pool moves p else p

-- The buffer, as large as the file, filled by the first loop of `read`.
abbrev pub filled : Bytes → StringPool → StringPool
filled bytes p =
    if ltb p.size (length bytes)
    then record p { memory = bytes; size = length bytes; generation = suc p.generation }
    else record p { memory = bytes }

module _ (hash_of : Bytes → ℕ) where
  -- Whether a node has this key: the bytes are compared only where code and length agree.
  unfoldable pub has_key : StringPool → Bytes → Node → Outcome Bool
  has_key p s e =
      if e.hash_code == hash_of s && e.key.size == length s
      then (text_of p e.key >>= λ text. ok (equal text s))
      else ok false

  -- `_hash.find`.
  unfoldable pub find : StringPool → Bytes → List Node → Outcome (Option ℕ)
  find p s [] = ok none
  find p s (e ∷ es) =
      let rest = find p s es in has_key p s e >>= λ found. if found then ok (some e.value) else rest

  -- `_hash[s] = value`, where `key` shows `s`: a node that has the key keeps its own view.
  unfoldable pub assign : StringPool → Bytes → View → ℕ → List Node → Outcome (List Node)
  assign p s key value [] = ok (record { key = key; hash_code = hash_of s; value = value } ∷ [])
  assign p s key value (e ∷ es) =
      let rest = assign p s key value es in
      has_key p s e >>= λ found.
      if found
      then ok (record { key = e.key; hash_code = e.hash_code; value = value } ∷ es)
      else (rest >>= λ es'. ok (e ∷ es'))

  -- `_hash[std::string_view(&_pool[offset])] = offset`, and the key.
  unfoldable pub assign_at : ℕ → StringPool → Outcome (Bytes × StringPool)
  assign_at offset p = c_string (drop offset p.memory) >>= λ text.
      assign p text (record { generation = p.generation; offset = offset; size = length text })
        offset p.entries
      >>= λ es. ok (text, record p { entries = es })

  -- The branch of `internalAdd` for a string that is not there, from `result = _position` on.
  unfoldable pub append : Bytes → StringPool → Outcome (ℕ × StringPool)
  append s p =
      if has_zero s
      then fault
      else if ltb (position p + length s) p.size
      then (assign_at (position p) (record p { memory = p.memory ++ (s ++ (0 ∷ [])) })
          >>= λ (_, p'). ok (position p, record p' { is_dirty = true }))
      else fault

  abbrev pub added : Bool → Bytes → StringPool → Option ℕ → Outcome (ℕ × StringPool)
  added moves s p (some result) = ok (result, p)
  added moves s p none = append s (grown moves s p)

  unfoldable pub internal_add : Bool → Bytes → StringPool → Outcome (ℕ × StringPool)
  internal_add moves s p = find p s p.entries >>= added moves s p

  -- The constructor, which adds the empty string to a fresh block.
  unfoldable pub make_pool : Outcome StringPool
  make_pool =
      internal_add false [] (record {
        memory = [];
        size = start_pool_size;
        generation = 0;
        entries = [];
        is_dirty = false;
      })
      >>= λ (_, p). ok p

  -- The second loop of `read`, from `currentPosition` on; a round takes at least one byte.
  unfoldable pub index_strings : ℕ → ℕ → StringPool → Outcome StringPool
  index_strings zero current p = out_of_fuel
  index_strings (suc fuel) current p =
      if ltb current (position p)
      then (assign_at current p >>= λ (text, p').
          index_strings fuel (current + (length text + 1)) p')
      else ok p

  unfoldable pub read : Option Bytes → StringPool → Outcome (Bool × StringPool)
  read none p = ok (true, p)
  read (some bytes) p = index_strings (suc (length bytes)) 0 (filled bytes p) >>= λ p'.
      ok (true, record p' { is_dirty = false })

-- `write`: the file afterwards.
unfoldable pub write : Option Bytes → StringPool → Option Bytes
write file p = if p.is_dirty then some p.memory else file
