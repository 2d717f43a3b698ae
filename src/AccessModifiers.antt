-- ===== src/AccessModifiers.antt =====
-- src/domain/classfile/AccessModifiers.h, with the flags of src/domain/classfile/ClassFileConstants.h.
pub mod Names
use tarracsh.Prelude.{ℕ, ◌*◌, ◌/◌, ◌%◌, Bool, List, [], ◌∷◌, ◌++◌, ◌==◌, if◌then◌else◌, codes}

abbrev pub Str : Type 0
Str = List ℕ

-- `(access_flags & flag) != 0`, for a flag of one bit.
abbrev pub has : ℕ → ℕ → Bool
has access_flags flag = access_flags / flag % 2 == 1

unfoldable pub is_public : ℕ → Bool
is_public access_flags = has access_flags 0x0001

unfoldable pub is_private : ℕ → Bool
is_private access_flags = has access_flags 0x0002

unfoldable pub is_protected : ℕ → Bool
is_protected access_flags = has access_flags 0x0004

unfoldable pub is_static : ℕ → Bool
is_static access_flags = has access_flags 0x0008

unfoldable pub is_final : ℕ → Bool
is_final access_flags = has access_flags 0x0010

unfoldable pub is_synchronized : ℕ → Bool
is_synchronized access_flags = has access_flags 0x0020

unfoldable pub is_super : ℕ → Bool
is_super access_flags = has access_flags 0x0020

unfoldable pub is_volatile : ℕ → Bool
is_volatile access_flags = has access_flags 0x0040

unfoldable pub is_bridge : ℕ → Bool
is_bridge access_flags = has access_flags 0x0040

unfoldable pub is_transient : ℕ → Bool
is_transient access_flags = has access_flags 0x0080

unfoldable pub is_varargs : ℕ → Bool
is_varargs access_flags = has access_flags 0x0080

unfoldable pub is_native : ℕ → Bool
is_native access_flags = has access_flags 0x0100

unfoldable pub is_interface : ℕ → Bool
is_interface access_flags = has access_flags 0x0200

unfoldable pub is_abstract : ℕ → Bool
is_abstract access_flags = has access_flags 0x0400

-- `_accessModifiers`, as `toLower` makes them.
abbrev pub access_modifiers : List Str
access_modifiers =
    codes "public"
    ∷ codes "private"
    ∷ codes "protected"
    ∷ codes "static"
    ∷ codes "final"
    ∷ codes "synchronized"
    ∷ codes "super"
    ∷ codes "volatile"
    ∷ codes "bridge"
    ∷ codes "transient"
    ∷ codes "varargs"
    ∷ codes "native"
    ∷ codes "interface"
    ∷ codes "abstract"
    ∷ codes "strict"
    ∷ codes "synthetic"
    ∷ codes "annotation"
    ∷ codes "enum"
    ∷ codes "module"
    ∷ []

-- The loop of `toString`: the modifiers whose bit is set.
unfoldable pub present_modifiers : ℕ → ℕ → List Str → List Str
present_modifiers access_flags bit [] = []
present_modifiers access_flags bit (name ∷ names) =
    let rest = present_modifiers access_flags (bit * 2) names in
    if has access_flags bit then name ∷ rest else rest

-- `stringUtils::join(parts, " ")`
unfoldable pub join_more : List Str → Str
join_more [] = []
join_more (part ∷ parts) = codes " " ++ (part ++ join_more parts)

unfoldable pub join : List Str → Str
unfolding join_more
join [] = []
join (part ∷ parts) = part ++ join_more parts

unfoldable pub to_string : ℕ → Str
to_string access_flags = join (present_modifiers access_flags 1 access_modifiers)
