-- ===== src/Attributes/Escapes.antt =====
-- `escapeUtf8` of src/infrastructure/string/StringUtils.h, and a reader of what it writes.
use tarracsh.Prelude.{
  ℕ, ◌+◌, ◌-◌, ◌*◌, ◌/◌, ◌%◌, ◌<◌, ◌≡◌, refl, sym, ap, ◌∙◌, ◌&&◌, not, ◌==◌, Bool, true, false, leb,
  [], ◌∷◌, ◌++◌, All, if◌then◌else◌, Bool-cases, inl, inr, arith,
}
use tarracsh.ClassFile.Pool.{Bytes}
use tarracsh.Attributes.Texts.{hex_digit, escape_byte, escape_utf8}

-- The number of a hexadecimal digit.
abbrev hex_value : ℕ → ℕ
hex_value d = if leb d 0x39 then d - b'0' else d - 0x57

-- Where in an escape a reader stands: outside, behind the backslash, behind the letter, or behind
-- the first digit.
data Place : Type 0 where
  outside behind_backslash behind_letter : Place
  behind_digit : ℕ → Place

-- A backslash, a letter and two digits stand for a byte, any other character for itself.
unescape : Place → Bytes → Bytes
unescape outside [] = []
unescape outside (c ∷ text) =
    let escaped = unescape behind_backslash text in
    let plain = unescape outside text in if c == 0x5c then escaped else c ∷ plain
unescape behind_backslash [] = []
unescape behind_backslash (c ∷ text) = unescape behind_letter text
unescape behind_letter [] = []
unescape behind_letter (c ∷ text) = unescape (behind_digit (hex_value c)) text
unescape (behind_digit d) [] = []
unescape (behind_digit d) (c ∷ text) = (d * 16 + hex_value c) ∷ unescape outside text

hex_lem : (n : ℕ) → n < 16 → hex_value (hex_digit n) ≡ n
hex_lem n h = ground (arith, h)

abbrev is_plain : ℕ → Bool
is_plain c = leb c 0x7f && (leb 0x20 c && (not (c == 0x5c) && (not (c == 0x22) && not (c == 0x27))))

plain_lem : (c : ℕ) → is_plain c ≡ true → (c == 0x5c) ≡ false
plain_lem c h = ground (arith, h)

unescape-escape_byte :
    (c : ℕ) (text : Bytes)
    → c < 256
    → unescape outside (escape_byte c ++ text) ≡ c ∷ unescape outside text
unfolding escape_byte unescape
unescape-escape_byte c text h = elim (Bool-cases (is_plain c)) [
  | inl e ↦ rw (e, plain_lem c e) refl
  | inr e ↦
      rw (e, hex_lem (c / 16) (omega arith), hex_lem (c % 16) (omega arith))
        (ap (λ n. n ∷ unescape outside text) (omega arith))
]

unescape-escape_utf8 :
    (input : Bytes) → All (λ c. c < 256) input → unescape outside (escape_utf8 input) ≡ input
unfolding escape_utf8 unescape
unescape-escape_utf8 [] h = refl
unescape-escape_utf8 (c ∷ input) (p, h) =
    unescape-escape_byte c (escape_utf8 input) p ∙ ap (c ∷◌) (unescape-escape_utf8 input h)

-- Of every two strings of bytes, the texts are the same only if the strings are.
pub escape_utf8_injective :
    (s t : Bytes)
    → All (λ c. c < 256) s
    → All (λ c. c < 256) t
    → escape_utf8 s ≡ escape_utf8 t
    → s ≡ t
escape_utf8_injective s t h k e =
    sym (unescape-escape_utf8 s h) ∙ ap (unescape outside) e ∙ unescape-escape_utf8 t k
