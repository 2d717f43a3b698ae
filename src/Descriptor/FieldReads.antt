-- ===== src/Descriptor/FieldReads.antt =====
-- On reading one field descriptor that is spelled by the grammar.
use tarracsh.Prelude.{
  ℕ, zero, suc, ◌+◌, ◌≤◌, ◌<◌, ◌≡◌, refl, Bool, true, false, ◌||◌, [], ◌∷◌, ◌++◌, ◌==◌, length, All,
  map, none, some, arith, append_assoc, append-nil, Bool-cases, inl, inr,
}
use tarracsh.Outcome.{Outcome, ok, fault}
use tarracsh.Descriptor.Scanner.{Str, Scanner, get_next_char, current_char}
use tarracsh.Descriptor.Parser.{
  Descriptor, no_descriptor, slash_to_dot, get_fq_classname, parse_character, is_empty, parse_loop,
  parse_with,
}
use tarracsh.Descriptor.Grammar.{
  Primitive, byte, Component, primitive, class_named, FieldDescriptor, letter, emit_component,
  emit_dims, emit_field, component_is_class, component_type, positive, field_node, cost_component,
  cost_field,
}

-- The parser stands on a character of the text `w`, with `k` after it.
abbrev pub on : Str → ℕ → Str → Scanner
on w c k = record { signature_string = w; under = some c; rest = k }

-- Where one `getNextChar` leads from there.
abbrev pub land : Str → ℕ → Str → Scanner
land w c [] = on w c []
land w c (x ∷ k) = on w x k

abbrev pub first : Str → ℕ
first [] = 0
first (x ∷ k) = x

next_land : (w : Str) (c : ℕ) (k : Str) → get_next_char (on w c k) ≡ (first k, land w c k)
unfolding get_next_char
next_land w c [] = refl
next_land w c (x ∷ k) = refl

-- The loop ends at once when a type is known.
loop_done :
    (f c : ℕ) (d : Descriptor) (s : Scanner)
    → is_empty d.type ≡ false
    → parse_loop (suc f) c d s ≡ ok (d, s)
unfolding parse_loop
loop_done f c d s h = elim (Bool-cases (c == 0)) [ inl e ↦ rw e | inr e ↦ rw (e, h) ]

classname_lem :
    (w name : Str) (f : ℕ) (type : Str) (c : ℕ) (k : Str)
    → All (λ c. (c == b';') ≡ false) name
    → length name < f
    → get_fq_classname f type (on w c (name ++ b';' ∷ k))
      ≡ ok (type ++ map slash_to_dot name, on w b';' k)
unfolding get_fq_classname
classname_lem w name zero type c k v h = absurd (omega arith)
classname_lem w [] (suc f) type c k v h = rw append-nil
classname_lem w (x ∷ name) (suc f) type c k v h =
    rw (
      v.0,
      classname_lem w name f (type ++ slash_to_dot x ∷ []) x k v.1 (omega arith),
      append_assoc,
    )

-- `DescriptorParser::parse` on the text that begins with `t`.
abbrev parse_text : ℕ → Descriptor → Str → Str → Outcome (Descriptor × Scanner)
parse_text f d w [] = fault
parse_text f d w (c ∷ r) = parse_loop f c d (on w c r)

-- The character on which the parser stands when it has read the component.
abbrev pub last_of : Component → ℕ
last_of (primitive p) = letter p
last_of (class_named name pos v) = b';'

cost-ge-two : (b : Component) → 2 ≤ cost_component b
cost-ge-two (primitive p) = omega arith
cost-ge-two (class_named name pos v) = omega arith

component_lem :
    (w : Str) (b : Component) (f : ℕ) (a : Bool) (m : ℕ) (k : Str)
    → cost_component b ≤ f
    → parse_text f
        (record { is_array = a; is_class = false; dimensions = m; type = [] })
        w
        (emit_component b k)
      ≡ ok (
        record {
          is_array = a;
          is_class = component_is_class b;
          dimensions = m;
          type = component_type b;
        },
        land w (last_of b) k,
      )
unfolding parse_loop parse_character
component_lem w b zero a m k h = absurd (omega (arith, cost-ge-two b))
component_lem w b (suc zero) a m k h = absurd (omega (arith, cost-ge-two b))
component_lem w (primitive byte) (suc (suc f)) a m k h =
    rw (next_land w b'B' k) (loop_done f (first k) _ _ refl)
component_lem w (primitive p) (suc (suc f)) a m k h =
    rw (next_land w (letter p) k) (loop_done f (first k) _ _ refl)
component_lem w (class_named [] pos v) (suc (suc f)) a m k h = absurd (omega arith)
component_lem w (class_named (x ∷ name) pos v) (suc (suc f)) a m k h =
    rw (classname_lem w (x ∷ name) (suc f) [] b'L' k v (omega arith), next_land w b';' k)
      (loop_done f (first k) _ _ refl)

component_text : (b : Component) (k : Str) → (x : ℕ) × (r : Str) × (emit_component b k ≡ x ∷ r)
component_text (primitive p) k = (letter p, k, refl)
component_text (class_named name pos v) k = (b'L', name ++ b';' ∷ k, refl)

pub dims_text :
    (n : ℕ) (b : Component) (k : Str)
    → (x : ℕ) × (r : Str) × (emit_dims n (emit_component b k) ≡ x ∷ r)
dims_text zero b k = component_text b k
dims_text (suc n) b k = (b'[', emit_dims n (emit_component b k), refl)

or_false : (a : Bool) → (a || false) ≡ a
or_false true = refl
or_false false = refl

or_true : (a : Bool) → (a || true) ≡ true
or_true true = refl
or_true false = refl

dims_lem :
    (w : Str) (n : ℕ) (b : Component) (f : ℕ) (a : Bool) (m : ℕ) (k : Str)
    → n + cost_component b ≤ f
    → parse_text f
        (record { is_array = a; is_class = false; dimensions = m; type = [] })
        w
        (emit_dims n (emit_component b k))
      ≡ ok (
        record {
          is_array = a || positive n;
          is_class = component_is_class b;
          dimensions = m + n;
          type = component_type b;
        },
        land w (last_of b) k,
      )
unfolding parse_loop parse_character get_next_char
dims_lem w zero b f a m k h =
    let none_more : m + 0 ≡ m = omega arith in
    rw (or_false, none_more) (component_lem w b f a m k (omega arith))
dims_lem w (suc n) b zero a m k h = absurd (omega arith)
dims_lem w (suc n) b (suc f) a m k h =
    let (x, r, e) = dims_text n b k in
    let ih = rw e at (dims_lem w n b f true (m + 1) k (omega arith)) in
    let one_more : m + suc n ≡ m + 1 + n = omega arith in rw (e, or_true, one_more) ih

-- Where the scanner stands before the text `t`.
abbrev pub before : Str → Str → Scanner
before w [] = record { signature_string = w; under = none; rest = [] }
before w (c ∷ r) = on w c r

parse_with_text : (f : ℕ) (w t : Str) → parse_with f (before w t) ≡ parse_text f no_descriptor w t
unfolding parse_with
parse_with_text f w [] = refl
parse_with_text f w (c ∷ r) = refl

-- What a `DescriptorParser` on a spelled field makes of it, and where it leaves the scanner.
pub field_lem :
    (w : Str) (d : FieldDescriptor) (f : ℕ) (k : Str)
    → cost_field d ≤ f
    → parse_with f (before w (emit_field d k)) ≡ ok (field_node d, land w (last_of d.component) k)
field_lem w d f k h =
    let none_more : 0 + d.dims ≡ d.dims = omega arith in
    rw parse_with_text (rw none_more at (dims_lem w d.dims d.component f false 0 k h))

-- No descriptor begins with the `)` that ends the arguments.
pub field_first :
    (d : FieldDescriptor) (w k : Str)
    → (x : ℕ) × (current_char (before w (emit_field d k)) ≡ ok x) × ((x == b')') ≡ false)
unfolding current_char
field_first d w k = go d.dims d.component
  where
    go :
        (n : ℕ) (b : Component)
        → (x : ℕ) × (current_char (before w (emit_dims n (emit_component b k))) ≡ ok x)
          × ((x == b')') ≡ false)
    go zero (primitive p) = (letter p, refl, not_end p)
      where
        not_end : (p : Primitive) → (letter p == b')') ≡ false
        not_end byte = refl
        not_end q = refl
    go zero (class_named name pos v) = (b'L', refl, refl)
    go (suc n) b = (b'[', refl, refl)
