-- ===== src/Digest/MemberOrder.antt =====
-- What the order of the members in a class file means to the digest of the class.
use tarracsh.Prelude.{List, [], ◌∷◌, ◌≡◌, ◌∙◌, refl, ap, ap₂, subst, sym, Bool-cases, inl, inr, All}
use mathlib.Core.List.{Permᴰ}
use tarracsh.Outcome.{Outcome, ok, threw, fault, out_of_fuel, ◌>>=◌}
use tarracsh.AccessModifiers.{is_public}
use tarracsh.ClassFile.Pool.{Bytes}
use tarracsh.ClassFile.Parser.{MemberInfo, ClassFile}
use tarracsh.Digest.Order.{insert_commute}
use tarracsh.Digest.Blind.{>>=-cong}
use tarracsh.Digest.Class.{
  digest_method, digest_field, insert_public, public_digests, digest_public_methods,
  digest_public_fields, digest,
}

>>=-assoc :
    {A B C : Type 0} (r : Outcome A) (f : A → Outcome B) (g : B → Outcome C)
    → (r >>= f) >>= g ≡ r >>= λ a. f a >>= g
>>=-assoc (ok a) f g = refl
>>=-assoc threw f g = refl
>>=-assoc fault f g = refl
>>=-assoc out_of_fuel f g = refl

-- The indices of the member are good, so that it has a digest.
abbrev pub HasDigest : (MemberInfo → Outcome Bytes) → MemberInfo → Type 0
HasDigest digest_one m = (d : Bytes) × (digest_one m ≡ ok d)

All-Perm : (P : MemberInfo → Type 0) {xs ys : List MemberInfo} → Permᴰ xs ys → All P xs → All P ys
All-Perm P Permᴰ.nil h = tt
All-Perm P (Permᴰ.cons e p) h = (subst P e h.0, All-Perm P p h.1)
All-Perm P (Permᴰ.swap e f) h = (subst P f h.1.0, (subst P e h.0, h.1.1))
All-Perm P (Permᴰ.trans p q) h = All-Perm P q (All-Perm P p h)

module _ (digest_one : MemberInfo → Outcome Bytes) where
  insert_public_commute :
      (a b : MemberInfo) (digests : List Bytes)
      → HasDigest digest_one a
      → HasDigest digest_one b
      → insert_public digest_one digests a >>= (λ next. insert_public digest_one next b)
        ≡ insert_public digest_one digests b >>= (λ next. insert_public digest_one next a)
  unfolding insert_public
  insert_public_commute a b digests (d, p) (e, q) = elim (Bool-cases (is_public a.access_flags)) [
    | inl h ↦ elim (Bool-cases (is_public b.access_flags)) [
      | inl k ↦ rw (h, k, p, q) (ap ok (insert_commute e d digests))
      | inr k ↦ rw (h, k, p) refl
    ]
    | inr h ↦ elim (Bool-cases (is_public b.access_flags)) [
      | inl k ↦ rw (h, k, q) refl
      | inr k ↦ rw (h, k) refl
    ]
  ]

  digests_swap :
      (a b : MemberInfo) (l : List MemberInfo) (digests : List Bytes)
      → HasDigest digest_one a
      → HasDigest digest_one b
      → public_digests digest_one digests (a ∷ b ∷ l)
        ≡ public_digests digest_one digests (b ∷ a ∷ l)
  unfolding public_digests
  digests_swap a b l digests p q =
      sym (>>=-assoc (insert_public digest_one digests a) _ _)
      ∙ (ap (λ r. r >>= λ next. public_digests digest_one next l)
            (insert_public_commute a b digests p q)
          ∙ >>=-assoc (insert_public digest_one digests b) _ _)

  public_digests-Perm :
      {xs ys : List MemberInfo} (digests : List Bytes)
      → Permᴰ xs ys
      → All (HasDigest digest_one) xs
      → public_digests digest_one digests xs ≡ public_digests digest_one digests ys
  unfolding public_digests
  public_digests-Perm digests Permᴰ.nil h = refl
  public_digests-Perm digests (Permᴰ.cons {b = b} {l₁ = l₁} e p) h =
      ap (λ m. public_digests digest_one digests (m ∷ l₁)) e
      ∙ >>=-cong (insert_public digest_one digests b) (λ next. public_digests-Perm next p h.1)
  public_digests-Perm digests (Permᴰ.swap {a = a} {b = b} {l = l} e f) h =
      digests_swap a b l digests h.0 h.1.0
      ∙ ap₂ (λ m n. public_digests digest_one digests (m ∷ n ∷ l)) f e
  public_digests-Perm digests (Permᴰ.trans p q) h =
      public_digests-Perm digests p h
      ∙ public_digests-Perm digests q (All-Perm (HasDigest digest_one) p h)

-- When the methods are listed in another order, and the fields too, the digest of the class is the
-- same, if the methods and fields have a digest.
pub digest-Perm :
    (sha256 : Bytes → Bytes) (c : ClassFile) (methods fields : List MemberInfo)
    → Permᴰ c.methods methods
    → Permᴰ c.fields fields
    → All (HasDigest (digest_method sha256 c.constant_pool)) c.methods
    → All (HasDigest (digest_field sha256 c.constant_pool)) c.fields
    → digest sha256 c ≡ digest sha256 (record c { methods = methods; fields = fields })
unfolding digest digest_public_methods digest_public_fields
digest-Perm sha256 c methods fields p q h k =
    rw
      (
        public_digests-Perm (digest_method sha256 c.constant_pool) [] p h,
        public_digests-Perm (digest_field sha256 c.constant_pool) [] q k,
      )
      refl
