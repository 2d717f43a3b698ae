-- ===== src/Diff/Names.antt =====
-- The maps of src/interfaces/cfdiff/ClassfileDiffApp.cpp, std::unordered_map with names for keys.
-- The order in which such a map is walked is not specified; it is that of insertion here.
use tarracsh.Prelude.{Bool, false, ◌||◌, List, [], ◌∷◌, ◌++◌, Option, none, some, if◌then◌else◌}
use tarracsh.Outcome.{Outcome, ok, ◌>>=◌}
use tarracsh.ClassFile.Pool.{Bytes}
use tarracsh.Digest.Class.{equal}

abbrev pub NameMap : Type 0 → Type 0
NameMap V = List (Bytes × V)

-- `_ignoredAttributes.contains(name)`
unfoldable pub is_among : Bytes → List Bytes → Bool
is_among name [] = false
is_among name (n ∷ names) = equal name n || is_among name names

module _ {V : Type 0} where
  -- `map.contains(name)` and `map[name]`
  unfoldable pub find : Bytes → NameMap V → Option V
  find name [] = none
  find name ((n, v) ∷ m) = let rest = find name m in if equal name n then some v else rest

  -- `map[name] = v`
  unfoldable pub put : Bytes → V → NameMap V → NameMap V
  put name v [] = (name, v) ∷ []
  put name v ((n, w) ∷ m) =
      let rest = put name v m in if equal name n then (n, v) ∷ m else (n, w) ∷ rest

  -- `map.erase(name)`
  unfoldable pub erase : Bytes → NameMap V → NameMap V
  erase name [] = []
  erase name ((n, w) ∷ m) = let rest = erase name m in if equal name n then m else (n, w) ∷ rest

-- `for (item : items) map[name_of(item)] = item;`
unfoldable pub by_name :
    {A : Type 0} → (A → Outcome Bytes) → NameMap A → List A → Outcome (NameMap A)
by_name name_of m [] = ok m
by_name name_of m (a ∷ rest) = name_of a >>= λ name. by_name name_of (put name a m) rest

-- The vector under `name`, empty where there was none, with `v` pushed behind.
unfoldable pub push : {V : Type 0} → Bytes → V → NameMap (List V) → NameMap (List V)
push name v [] = (name, v ∷ []) ∷ []
push name v ((n, vs) ∷ m) =
    let rest = push name v m in if equal name n then (n, vs ++ (v ∷ [])) ∷ m else (n, vs) ∷ rest
