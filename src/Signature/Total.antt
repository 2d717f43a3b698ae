-- ===== src/Signature/Total.antt =====
-- On how far the rules for types read: each call and each round of a loop reads or stops.
use tarracsh.Prelude.{ℕ, zero, suc, ◌+◌, ◌*◌, ◌<◌, Bool, true, ◌∷◌, ◌++◌, ◌==◌, ◌||◌, arith}
use tarracsh.Outcome.{Within, Within-if, Within-weaken}
use tarracsh.Signature.Nodes.{Str, type_variable, path_cons}
use tarracsh.Signature.Cursor.{Cursor, advance, measure, pure, expect, parse_identifier}
use tarracsh.Signature.Parser.{
  parse_base_type, starts_base_type, parse_package, parse_type_variable_signature,
  parse_type_signature, parse_field_type_signature, parse_class_type_signature,
  parse_package_name_and_simple_class_type_signature, parse_class_type_signature_suffix,
  parse_simple_class_type_signature, parse_type_arguments, parse_more_type_arguments,
  parse_type_argument,
}
use tarracsh.Signature.Measure.{
  Further, NoLess, measure-advance, Within-current, Within-expect, Within-chain,
  measure-parse_identifier,
}

base_type-Further : (c : Cursor) → Within (Further c) (parse_base_type c)
unfolding parse_base_type
base_type-Further c = Within-current (Further c) c _ λ x pos. ground (arith, measure-advance c)

package-NoLess :
    (f : ℕ) (id : Str) (c : Cursor) → measure c < f → Within (NoLess c) (parse_package f id c)
unfolding parse_package
package-NoLess zero id c h = absurd (omega arith)
package-NoLess (suc f) id c h = Within-current (NoLess c) c _ λ x pos.
    Within-if (NoLess c) (x == b'/') _ _
      (λ _.
        let segment = parse_identifier (advance c) in
        Within-weaken (parse_package f (id ++ b'.' ∷ segment.0) segment.1)
          (λ r q. omega (arith, measure-parse_identifier (advance c), measure-advance c, q))
          (package-NoLess f _ segment.1
            (omega (arith, measure-parse_identifier (advance c), measure-advance c))))
      (λ _. omega arith)

variable-Further : (c : Cursor) → Within (Further c) (parse_type_variable_signature c)
unfolding parse_type_variable_signature expect
variable-Further c = Within-current (Further c) c _ λ x pos.
    Within-if (Further c) (x == b'T') _ _
      (λ _.
        let (id, now) = parse_identifier (advance c) in
        Within-expect (Further c) b';' now (pure (type_variable id)) λ _.
          omega
            (arith, measure-parse_identifier (advance c), measure-advance c, measure-advance now))
      (λ _. tt)

-- The fuel that is enough at a cursor is four units for each character left and a few more.
mutual
  unfolding parse_type_signature expect

  pub type-Further :
      (f : ℕ) (c : Cursor) → 4 * measure c + 2 < f → Within (Further c) (parse_type_signature f c)
  type-Further zero c h = absurd (omega arith)
  type-Further (suc f) c h = Within-current (Further c) c _ λ x pos.
      Within-if (Further c) (starts_base_type x) _ _
        (λ _.
          Within-chain (Further c) (Further c) parse_base_type _ c (base_type-Further c)
            (λ b now q. q))
        (λ _.
          Within-chain (Further c) (Further c) (parse_field_type_signature f true) _ c
            (field-Further f true c (omega arith)) (λ b now q. q))

  pub field-Further :
      (f : ℕ) (allow : Bool) (c : Cursor)
      → 4 * measure c + 1 < f
      → Within (Further c) (parse_field_type_signature f allow c)
  field-Further zero allow c h = absurd (omega arith)
  field-Further (suc f) allow c h = Within-current (Further c) c _ λ x pos.
      Within-if (Further c) (x == b'L') _ _
        (λ _.
          Within-chain (Further c) (Further c) (parse_class_type_signature f) _ c
            (class-Further f c (omega arith)) (λ b now q. q))
        (λ _.
          Within-if (Further c) (x == b'T') _ _ (λ _. variable-Further c)
            (λ _.
              Within-if (Further c) (x == b'[') _ _
                (λ _.
                  Within-if (Further c) allow _ _
                    (λ _.
                      Within-chain (Further (advance c)) (Further c) (parse_type_signature f) _
                        (advance c) (type-Further f (advance c) (omega (arith, measure-advance c)))
                        (λ b now q. omega (arith, measure-advance c, q)))
                    (λ _. tt))
                (λ _. tt)))

  pub class-Further :
      (f : ℕ) (c : Cursor) → 4 * measure c < f → Within (Further c) (parse_class_type_signature f c)
  class-Further zero c h = absurd (omega arith)
  class-Further (suc f) c h = Within-current (Further c) c _ λ x pos.
      Within-if (Further c) (x == b'L') _ _
        (λ _.
          Within-chain (NoLess (advance c)) (Further c)
            (parse_package_name_and_simple_class_type_signature f) _ (advance c)
            (head-NoLess f (advance c) (omega (arith, measure-advance c)))
            (λ head now q.
              Within-chain (NoLess now) (Further c) (parse_class_type_signature_suffix f) _ now
                (suffix-NoLess f now (omega (arith, measure-advance c, q)))
                (λ path last r.
                  Within-expect (Further c) b';' last (pure (path_cons head path))
                    (λ _. omega (arith, measure-advance c, measure-advance last, q, r)))))
        (λ _. tt)

  head-NoLess :
      (f : ℕ) (c : Cursor)
      → 4 * measure c + 2 < f
      → Within (NoLess c) (parse_package_name_and_simple_class_type_signature f c)
  head-NoLess zero c h = absurd (omega arith)
  head-NoLess (suc f) c h =
      let (first, now) = parse_identifier c in
      Within-chain (NoLess now) (NoLess c) (parse_package f first) _ now
        (package-NoLess f first now (omega (arith, measure-parse_identifier c)))
        (λ id here q. Within-current (NoLess c) here _ λ x pos.
          Within-if (NoLess c) (x == b';') _ _ (λ _. omega (arith, measure-parse_identifier c, q))
            (λ _.
              Within-if (NoLess c) (x == b'<') _ _
                (λ _.
                  Within-chain (Further here) (NoLess c) (parse_type_arguments f) _ here
                    (arguments-Further f here (omega (arith, measure-parse_identifier c, q)))
                    (λ a last r. omega (arith, measure-parse_identifier c, q, r)))
                (λ _.
                  Within-if (NoLess c) (x == b'.' || x == b'$') _ _
                    (λ _. omega (arith, measure-parse_identifier c, q)) (λ _. tt))))

  suffix-NoLess :
      (f : ℕ) (c : Cursor)
      → 4 * measure c < f
      → Within (NoLess c) (parse_class_type_signature_suffix f c)
  suffix-NoLess zero c h = absurd (omega arith)
  suffix-NoLess (suc f) c h = Within-current (NoLess c) c _ λ x pos.
      Within-if (NoLess c) (x == b'.' || x == b'$') _ _
        (λ _.
          Within-chain (NoLess (advance c)) (NoLess c) (parse_simple_class_type_signature f true) _
            (advance c) (simple-NoLess f true (advance c) (omega (arith, measure-advance c)))
            (λ s now q.
              Within-chain (NoLess now) (NoLess c) (parse_class_type_signature_suffix f) _ now
                (suffix-NoLess f now (omega (arith, measure-advance c, q)))
                (λ p last r. omega (arith, measure-advance c, q, r))))
        (λ _. omega arith)

  simple-NoLess :
      (f : ℕ) (dollar : Bool) (c : Cursor)
      → 4 * measure c + 1 < f
      → Within (NoLess c) (parse_simple_class_type_signature f dollar c)
  simple-NoLess zero dollar c h = absurd (omega arith)
  simple-NoLess (suc f) dollar c h =
      let (id, now) = parse_identifier c in
      Within-current (NoLess c) now _ λ x pos.
        Within-if (NoLess c) (x == b';' || x == b'.' || x == b'$') _ _
          (λ _. measure-parse_identifier c)
          (λ _.
            Within-if (NoLess c) (x == b'<') _ _
              (λ _.
                Within-chain (Further now) (NoLess c) (parse_type_arguments f) _ now
                  (arguments-Further f now (omega (arith, measure-parse_identifier c)))
                  (λ a last r. omega (arith, measure-parse_identifier c, r)))
              (λ _. tt))

  arguments-Further :
      (f : ℕ) (c : Cursor) → 4 * measure c < f → Within (Further c) (parse_type_arguments f c)
  arguments-Further zero c h = absurd (omega arith)
  arguments-Further (suc f) c h = Within-current (Further c) c _ λ x pos.
      Within-if (Further c) (x == b'<') _ _
        (λ _.
          Within-chain (Further (advance c)) (Further c) (parse_type_argument f) _ (advance c)
            (argument-Further f (advance c) (omega (arith, measure-advance c)))
            (λ a now q.
              Within-chain (Further now) (Further c) (parse_more_type_arguments f) _ now
                (more-Further f now (omega (arith, measure-advance c, q)))
                (λ r last s. omega (arith, measure-advance c, q, s))))
        (λ _. tt)

  more-Further :
      (f : ℕ) (c : Cursor)
      → 4 * measure c + 3 < f
      → Within (Further c) (parse_more_type_arguments f c)
  more-Further zero c h = absurd (omega arith)
  more-Further (suc f) c h = Within-current (Further c) c _ λ x pos.
      Within-if (Further c) (x == b'>') _ _ (λ _. omega (arith, measure-advance c))
        (λ _.
          Within-chain (Further c) (Further c) (parse_type_argument f) _ c
            (argument-Further f c (omega arith))
            (λ a now q.
              Within-chain (Further now) (Further c) (parse_more_type_arguments f) _ now
                (more-Further f now (omega (arith, q))) (λ r last s. omega (arith, q, s))))

  argument-Further :
      (f : ℕ) (c : Cursor) → 4 * measure c + 2 < f → Within (Further c) (parse_type_argument f c)
  argument-Further zero c h = absurd (omega arith)
  argument-Further (suc f) c h = Within-current (Further c) c _ λ x pos.
      Within-if (Further c) (x == b'+') _ _
        (λ _.
          Within-chain (Further (advance c)) (Further c) (parse_field_type_signature f true) _
            (advance c) (field-Further f true (advance c) (omega (arith, measure-advance c)))
            (λ t now q. omega (arith, measure-advance c, q)))
        (λ _.
          Within-if (Further c) (x == b'*') _ _ (λ _. omega (arith, measure-advance c))
            (λ _.
              Within-if (Further c) (x == b'-') _ _
                (λ _.
                  Within-chain (Further (advance c)) (Further c) (parse_field_type_signature f true)
                    _ (advance c)
                    (field-Further f true (advance c) (omega (arith, measure-advance c)))
                    (λ t now q. omega (arith, measure-advance c, q)))
                (λ _.
                  Within-chain (Further c) (Further c) (parse_field_type_signature f true) _ c
                    (field-Further f true c (omega arith)) (λ t now q. q))))
