-- ===== src/Signature/Measure.antt =====
-- How the reading operations move `_position`, as rules for postconditions.
use tarracsh.Prelude.{
  ℕ, suc, ◌-◌, ◌≤◌, ◌<◌, ◌≡◌, [], ◌∷◌, List, length, arith, Bool-cases, inl, inr, ◌==◌,
}
use tarracsh.Outcome.{Outcome, ◌>>=◌, Within, Within-bind, Within-if}
use tarracsh.Signature.Nodes.{Str}
use tarracsh.Signature.Cursor.{
  Cursor, at, past, ParseError, current, advance, measure, Parser, chain, expect, take_identifier,
  parse_identifier, ends_identifier,
}

-- The cursor after is further on than before, or at least as far.
abbrev pub Further : {A : Type 0} → Cursor → A × Cursor → Type 0
Further c r = measure r.1 < measure c

abbrev pub NoLess : {A : Type 0} → Cursor → A × Cursor → Type 0
NoLess c r = measure r.1 ≤ measure c

pub measure-advance : (c : Cursor) → measure (advance c) ≡ measure c - 1
unfolding measure advance
measure-advance (at [] e) = omega arith
measure-advance (at (x ∷ k) e) = omega arith
measure-advance (past e) = omega arith

pub Within-current :
    {B : Type 0} (Q : B → Type 0) (c : Cursor) (k : ℕ → Outcome B)
    → ((ch : ℕ) → 0 < measure c → Within Q (k ch))
    → Within Q (current c >>= k)
unfolding measure current
Within-current Q (at [] e) k h = h 0 (omega arith)
Within-current Q (at (x ∷ r) e) k h = h x (omega arith)
Within-current Q (past e) k h = tt

-- `expect`, as `Within-current` and the test.
pub Within-expect :
    {A : Type 0} (Q : A × Cursor → Type 0) (ch : ℕ) (c : Cursor) (k : Cursor → Outcome (A × Cursor))
    → (0 < measure c → Within Q (k (advance c)))
    → Within Q (expect ch k c)
unfolding expect
Within-expect Q ch c k h =
    Within-current Q c _ (λ x pos. Within-if Q (x == ch) _ _ (λ _. h pos) (λ _. tt))

-- A parse and what follows it.
pub Within-chain :
    {A B : Type 0} (P : A × Cursor → Type 0) (Q : B × Cursor → Type 0) (p : Parser A)
    (k : A → Parser B) (c : Cursor)
    → Within P (p c)
    → ((a : A) (now : Cursor) → P (a, now) → Within Q (k a now))
    → Within Q (chain p k c)
Within-chain P Q p k c h step = Within-bind P Q (p c) _ h (λ (a, now) q. step a now q)

measure-take_identifier :
    (k : Str) (e : List ParseError) → measure (take_identifier k e).1 ≤ suc (length k)
unfolding measure take_identifier
measure-take_identifier [] e = omega arith
measure-take_identifier (x ∷ k) e = elim (Bool-cases (ends_identifier x)) [
  | inl stop ↦ rw stop (omega arith)
  | inr go ↦ rw go (omega (arith, measure-take_identifier k e))
]

pub measure-parse_identifier : (c : Cursor) → measure (parse_identifier c).1 ≤ measure c
unfolding measure parse_identifier
measure-parse_identifier (at k e) = measure-take_identifier k e
measure-parse_identifier (past e) = omega arith
