-- ===== src/Descriptor/Scanner.antt =====
-- src/domain/classfile/signature/SignatureScanner.h.
use tarracsh.Prelude.{ℕ, List, [], ◌∷◌, Option, none, some}
use tarracsh.Outcome.{Outcome, ok, fault}

abbrev pub Str : Type 0
Str = List ℕ

-- `_position` begins at -1 and moves forward only, never beyond the last character: `under` is the
-- character at it, `none` at -1, and `rest` is what follows.
pub record Scanner : Type 0 where
  pub signature_string : Str
  pub under : Option ℕ
  pub rest : Str

unfoldable pub make : Str → Scanner
make text = record { signature_string = text; under = none; rest = text }

-- `getNextChar`: at the last character it returns 0 and stays.
unfoldable pub get_next_char : Scanner → ℕ × Scanner
get_next_char s = elim s.rest [ [] ↦ (0, s) | c ∷ r ↦ (c, record s { under = some c; rest = r }) ]

-- `peekNextChar`
unfoldable pub peek_next_char : Scanner → ℕ
peek_next_char s = elim s.rest [ [] ↦ 0 | c ∷ r ↦ c ]

-- `step`
unfoldable pub step : Scanner → Scanner
unfolding get_next_char
step s = (get_next_char s).1

-- `currentChar`: its test `_position >= _size` does not exclude the index -1.
unfoldable pub current_char : Scanner → Outcome ℕ
current_char s = elim s.under [ none ↦ fault | some c ↦ ok c ]
