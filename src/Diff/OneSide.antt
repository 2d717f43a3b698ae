-- ===== src/Diff/OneSide.antt =====
-- Attributes on one side only, beside others, in `compareAttributes` of
-- src/interfaces/cfdiff/ClassfileDiffApp.cpp.
use tarracsh.Prelude.{
  ℕ, ◌+◌, ◌≡◌, refl, sym, ap, ◌∙◌, true, false, List, [], ◌∷◌, ◌++◌, Bool-cases, Option, none, some,
  Option-cases, inl, inr, if◌then◌else◌,
}
use tarracsh.ClassFile.Pool.{Bytes}
use tarracsh.ClassFile.Parser.{AttributeInfo}
use tarracsh.Digest.Class.{equal}
use tarracsh.StringPool.Layout.{equal_refl, equal_sound}
use tarracsh.Diff.Names.{NameMap, is_among, find, erase}
use tarracsh.Diff.Compare.{match_attribute, match_attributes, count_missing, attribute_differences}

equal_other : (a b : Bytes) → equal a b ≡ false → equal b a ≡ false
equal_other a b h = elim (Bool-cases (equal b a)) [
  | inl e ↦
      let wrong : true ≡ false =
        sym (equal_refl a) ∙ (ap (equal a) (sym (equal_sound b a e)) ∙ h) in
      cc
  | inr e ↦ e
]

module _ {V : Type 0} where
  -- The first entry is of another name, and so are the rest.
  find_rest :
      (name n : Bytes) (v : V) (m : NameMap V)
      → find name ((n, v) ∷ m) ≡ none
      → (equal name n ≡ false) × (find name m ≡ none)
  unfolding find
  find_rest name n v m h = elim (Bool-cases (equal name n)) [
    | inl e ↦
        let wrong : (if equal name n then some v else find name m) ≡ some v = rw e refl in
        absurd (no_entry (sym wrong ∙ h))
    | inr e ↦
        let rest : (if equal name n then some v else find name m) ≡ find name m = rw e refl in
        (e, sym rest ∙ h)
  ]
    where
      no_entry : ◌≡◌ {A = Option V} (some v) none → ⊥
      no_entry h = cc

  find-erase : (name n : Bytes) (m : NameMap V) → find name m ≡ none → find name (erase n m) ≡ none
  unfolding find erase
  find-erase name n [] h = refl
  find-erase name n ((k, v) ∷ m) h =
      let (other, rest) = find_rest name k v m h in
      elim (Bool-cases (equal n k)) [
        | inl e ↦ rw e rest
        | inr e ↦ rw (e, other) (find-erase name n m rest)
      ]

  find-append :
      (name n : Bytes) (v : V) (m : NameMap V)
      → equal name n ≡ false
      → find name (m ++ ((n, v) ∷ [])) ≡ find name m
  unfolding find
  find-append name n v [] h = rw h refl
  find-append name n v ((k, w) ∷ m) h = elim (Bool-cases (equal name k)) [
    | inl e ↦ rw e refl
    | inr e ↦ rw e (find-append name n v m h)
  ]

  erase-append :
      (name n : Bytes) (v : V) (m : NameMap V)
      → equal name n ≡ false
      → erase name (m ++ ((n, v) ∷ [])) ≡ erase name m ++ ((n, v) ∷ [])
  unfolding erase
  erase-append name n v [] h = rw h refl
  erase-append name n v ((k, w) ∷ m) h = elim (Bool-cases (equal name k)) [
    | inl e ↦ rw e refl
    | inr e ↦ rw e (ap ((k, w) ∷◌) (erase-append name n v m h))
  ]

module _ (ignored : List Bytes) where
  -- A round of the first loop, by what it makes of the right map and the count.
  match_attributes_round :
      (name : Bytes) (l : AttributeInfo) (lefts rights : NameMap AttributeInfo) (d : ℕ)
      (next : NameMap AttributeInfo × ℕ)
      → (if is_among name ignored
          then (rights, d)
          else match_attribute name l (find name rights) rights d)
        ≡ next
      → match_attributes ignored ((name, l) ∷ lefts) rights d
        ≡ match_attributes ignored lefts next.0 next.1
  unfolding match_attributes
  match_attributes_round name l lefts rights d next h =
      ap (λ (q : NameMap AttributeInfo × ℕ). match_attributes ignored lefts q.0 q.1) h

  match_attributes-left :
      (n : Bytes) (a : AttributeInfo) (lefts rights : NameMap AttributeInfo) (d : ℕ)
      → find n rights ≡ none
      → match_attributes ignored (lefts ++ ((n, a) ∷ [])) rights d
        ≡ match_attributes ignored lefts rights d
  unfolding match_attribute
  match_attributes-left n a [] rights d h =
      match_attributes_round n a [] rights d (rights, d)
        (elim (Bool-cases (is_among n ignored)) [ inl e ↦ rw e refl | inr e ↦ rw (e, h) refl ])
  match_attributes-left n a ((name, l) ∷ lefts) rights d h =
      let both : (next : NameMap AttributeInfo × ℕ)
          → find n next.0 ≡ none
          → (if is_among name ignored
              then (rights, d)
              else match_attribute name l (find name rights) rights d)
            ≡ next
          → match_attributes ignored ((name, l) ∷ (lefts ++ ((n, a) ∷ []))) rights d
            ≡ match_attributes ignored ((name, l) ∷ lefts) rights d =
        λ next gone is.
          match_attributes_round name l (lefts ++ ((n, a) ∷ [])) rights d next is
          ∙ (match_attributes-left n a lefts next.0 next.1 gone
              ∙ sym (match_attributes_round name l lefts rights d next is)) in
      elim (Bool-cases (is_among name ignored)) [
        | inl e ↦ both (rights, d) h (rw e refl)
        | inr e ↦ elim (Option-cases (find name rights)) [
          | inl none_there ↦ both (rights, d) h (rw (e, none_there) refl)
          | inr (r, there) ↦
              both (match_attribute name l (some r) rights d) (find-erase n name rights h)
                (rw (e, there) refl)
        ]
      ]

  match_attributes-right :
      (n : Bytes) (b : AttributeInfo) (lefts rights : NameMap AttributeInfo) (d : ℕ)
      → find n lefts ≡ none
      → match_attributes ignored lefts (rights ++ ((n, b) ∷ [])) d ≡ (
        (match_attributes ignored lefts rights d).0 ++ ((n, b) ∷ []),
        (match_attributes ignored lefts rights d).1,
      )
  unfolding match_attribute match_attributes
  match_attributes-right n b [] rights d h = refl
  match_attributes-right n b ((name, l) ∷ lefts) rights d h =
      let (other, rest) = find_rest n name l lefts h in
      let apart = equal_other n name other in
      let both : (rights' : NameMap AttributeInfo) (d' : ℕ)
          → (if is_among name ignored
              then (rights, d)
              else match_attribute name l (find name rights) rights d)
            ≡ (rights', d')
          → (if is_among name ignored
              then (rights ++ ((n, b) ∷ []), d)
              else match_attribute name l (find name (rights ++ ((n, b) ∷ [])))
                  (rights ++ ((n, b) ∷ [])) d)
            ≡ (rights' ++ ((n, b) ∷ []), d')
          → match_attributes ignored ((name, l) ∷ lefts) (rights ++ ((n, b) ∷ [])) d ≡ (
            (match_attributes ignored ((name, l) ∷ lefts) rights d).0 ++ ((n, b) ∷ []),
            (match_attributes ignored ((name, l) ∷ lefts) rights d).1,
          ) =
        λ rights' d' is is'.
          match_attributes_round name l lefts (rights ++ ((n, b) ∷ [])) d
            (rights' ++ ((n, b) ∷ []), d') is'
          ∙ (match_attributes-right n b lefts rights' d' rest
              ∙ ap (λ (q : NameMap AttributeInfo × ℕ). (q.0 ++ ((n, b) ∷ []), q.1))
                  (sym (match_attributes_round name l lefts rights d (rights', d') is))) in
      elim (Bool-cases (is_among name ignored)) [
        | inl e ↦ both rights d (rw e refl) (rw e refl)
        | inr e ↦ elim (Option-cases (find name rights)) [
          | inl none_there ↦
              both rights d (rw (e, none_there) refl)
                (rw (e, find-append name n b rights apart, none_there) refl)
          | inr (r, there) ↦
              let next = match_attribute name l (some r) rights d in
              both next.0 next.1 (rw (e, there) refl) (
                rw (e, find-append name n b rights apart, there, erase-append name n b rights apart)
                  refl)
        ]
      ]

  count_missing-append :
      (n : Bytes) (b : AttributeInfo) (rights : NameMap AttributeInfo) (d : ℕ)
      → is_among n ignored ≡ false
      → count_missing ignored (rights ++ ((n, b) ∷ [])) d ≡ count_missing ignored rights d + 1
  unfolding count_missing
  count_missing-append n b [] d h = rw h refl
  count_missing-append n b ((name, r) ∷ rights) d h = count_missing-append n b rights _ h

  -- Beside any other attributes of both sides: one more that only the left side has makes no
  -- difference, and one more that only the right side has makes one, if its name is not ignored.
  pub attribute_differences_missing :
      (n : Bytes) (a : AttributeInfo) (lefts rights : NameMap AttributeInfo)
      → is_among n ignored ≡ false
      → find n lefts ≡ none
      → find n rights ≡ none
      → (attribute_differences ignored (lefts ++ ((n, a) ∷ [])) rights
          ≡ attribute_differences ignored lefts rights)
        × (attribute_differences ignored lefts (rights ++ ((n, a) ∷ []))
            ≡ attribute_differences ignored lefts rights + 1)
  unfolding attribute_differences
  attribute_differences_missing n a lefts rights other l r = (
    rw (match_attributes-left n a lefts rights 0 r) refl,
    rw (match_attributes-right n a lefts rights 0 l) (
        count_missing-append n a (match_attributes ignored lefts rights 0).0
          (match_attributes ignored lefts rights 0).1 other),
  )
