-- ===== src/Attributes/Texts.antt =====
-- The text functions that src/domain/classfile/AttributesManager.h uses, of
-- src/infrastructure/string/StringUtils.h, and what libraries print, as parameters.
use tarracsh.Prelude.{
  ℕ, ◌+◌, ◌/◌, ◌%◌, ◌&&◌, not, ◌==◌, ltb, leb, List, [], ◌∷◌, ◌++◌, codes, if◌then◌else◌,
}
use tarracsh.ClassFile.Pool.{Bytes}

-- How fmt and std::to_string print numbers: an unsigned one in base ten, and an int, a long long, a
-- float and a double by their bits.
pub record Formats : Type 0 where
  pub number : ℕ → Bytes
  pub int_text : ℕ → Bytes
  pub long_text : ℕ → Bytes
  pub float_text : ℕ → Bytes
  pub double_text : ℕ → Bytes

-- `join(parts, delim)`
unfoldable pub join_more : Bytes → List Bytes → Bytes
join_more delim [] = []
join_more delim (part ∷ parts) = delim ++ (part ++ join_more delim parts)

unfoldable pub join : Bytes → List Bytes → Bytes
unfolding join_more
join delim [] = []
join delim (part ∷ parts) = part ++ join_more delim parts

-- `std::hex` with a width of two.
abbrev pub hex_digit : ℕ → ℕ
hex_digit n = if ltb n 10 then b'0' + n else 0x57 + n

-- A round of `escapeUtf8`: what may be misread is shown as `\x` and two digits.
unfoldable pub escape_byte : ℕ → Bytes
escape_byte c =
    if leb c 0x7f && (leb 0x20 c && (not (c == 0x5c) && (not (c == 0x22) && not (c == 0x27))))
    then c ∷ []
    else 0x5c ∷ b'x' ∷ hex_digit (c / 16) ∷ hex_digit (c % 16) ∷ []

unfoldable pub escape_utf8 : Bytes → Bytes
unfolding escape_byte
escape_utf8 [] = []
escape_utf8 (c ∷ input) = escape_byte c ++ escape_utf8 input

-- The end of most attribute texts: ` (none)` or the like, or ` count=` and the parts.
unfoldable pub listed : Bytes → Bytes → Bytes → List Bytes → Bytes
unfolding join
listed nothing label delim [] = nothing
listed nothing label delim (part ∷ parts) = label ++ (codes ", " ++ join delim (part ∷ parts))
