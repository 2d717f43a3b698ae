-- ===== src/Descriptor/Grammar.antt =====
-- Descriptors by the grammar of the Java virtual machine specification (4.3), how they are spelled,
-- and what the parser ought to make of them.
use tarracsh.Prelude.{
  ℕ, zero, suc, ◌+◌, ◌<◌, ◌≡◌, Bool, true, false, List, [], ◌∷◌, ◌++◌, ◌==◌, length, if◌then◌else◌,
  All, map, codes,
}
use tarracsh.Descriptor.Scanner.{Str}
use tarracsh.Descriptor.Parser.{Descriptor, MethodDescriptor}

pub data Primitive : Type 0 where
  byte char double float int long short boolean void : Primitive

pub data Component : Type 0 where
  primitive : Primitive → Component
  class_named : (name : Str) → 0 < length name → All (λ c. (c == b';') ≡ false) name → Component

pub record FieldDescriptor : Type 0 where
  pub dims : ℕ
  pub component : Component

abbrev pub letter : Primitive → ℕ
letter byte = b'B'
letter char = b'C'
letter double = b'D'
letter float = b'F'
letter int = b'I'
letter long = b'J'
letter short = b'S'
letter boolean = b'Z'
letter void = b'V'

abbrev pub java_name : Primitive → Str
java_name byte = codes "byte"
java_name char = codes "char"
java_name double = codes "double"
java_name float = codes "float"
java_name int = codes "int"
java_name long = codes "long"
java_name short = codes "short"
java_name boolean = codes "boolean"
java_name void = codes "void"

abbrev pub emit_component : Component → Str → Str
emit_component (primitive p) k = letter p ∷ k
emit_component (class_named name pos v) k = b'L' ∷ (name ++ b';' ∷ k)

abbrev pub emit_dims : ℕ → Str → Str
emit_dims zero k = k
emit_dims (suc n) k = b'[' ∷ emit_dims n k

abbrev pub emit_field : FieldDescriptor → Str → Str
emit_field d k = emit_dims d.dims (emit_component d.component k)

abbrev pub emit_fields : List FieldDescriptor → Str → Str
emit_fields [] k = k
emit_fields (d ∷ ds) k = emit_field d (emit_fields ds k)

abbrev pub emit_method : List FieldDescriptor → FieldDescriptor → Str
emit_method args ret = b'(' ∷ emit_fields args (b')' ∷ emit_field ret [])

abbrev pub component_is_class : Component → Bool
component_is_class (primitive p) = false
component_is_class (class_named name pos v) = true

-- A class name as Java writes it, with `.` between its parts.
abbrev pub dot_for_slash : ℕ → ℕ
dot_for_slash c = if c == b'/' then b'.' else c

abbrev pub component_type : Component → Str
component_type (primitive p) = java_name p
component_type (class_named name pos v) = map dot_for_slash name

abbrev pub positive : ℕ → Bool
positive zero = false
positive (suc n) = true

abbrev pub field_node : FieldDescriptor → Descriptor
field_node d = record {
  is_array = positive d.dims;
  is_class = component_is_class d.component;
  dimensions = d.dims;
  type = component_type d.component;
}

abbrev pub method_node : List FieldDescriptor → FieldDescriptor → MethodDescriptor
method_node args ret = record { arguments = map field_node args; return_type = field_node ret }

-- The fuel that is enough.
abbrev pub cost_component : Component → ℕ
cost_component (primitive p) = 2
cost_component (class_named name pos v) = length name + 3

abbrev pub cost_field : FieldDescriptor → ℕ
cost_field d = d.dims + cost_component d.component

abbrev pub cost_fields : List FieldDescriptor → ℕ
cost_fields [] = 1
cost_fields (d ∷ ds) = suc (cost_field d + cost_fields ds)
