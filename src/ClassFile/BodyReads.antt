-- ===== src/ClassFile/BodyReads.antt =====
-- On reading back what follows the constant pool, and the whole body of a written class file.
use tarracsh.Prelude.{List, [], ◌∷◌, ◌++◌, length, All, arith, ltb, lt→ltb, if◌then◌else◌}
use tarracsh.ClassFile.Reader.{
  Parse, ◌>>=◌, pure, read_bytes, over_zeros, read_u2, read_zeroed_u2, read_zeroed_u4,
}
use tarracsh.ClassFile.Pool.{Bytes, empty_pool}
use tarracsh.ClassFile.Parser.{
  AttributeInfo, MemberInfo, MainClassInfo, ClassFile, read_constants_pool, read_main_class_info,
  times, read_interfaces, read_attribute, read_attributes_section, read_field, read_method,
  read_fields, read_methods, read_attributes, process_file,
}
use tarracsh.ClassFile.Encode.{
  u2_bytes, u4_bytes, write_all, Word16, write_pool, pool_of, write_attribute, AttributeFits,
  write_member, MemberFits, Written, WrittenFits, write_main, counted, write_body, parsed_class,
}
use tarracsh.ClassFile.Reads.{
  Reads, Reads-pure, Reads-bind, Reads-map, Reads-bytes, Reads-u2, Reads-zeroed_u2, Reads-zeroed_u4,
  Reads-times,
}
use tarracsh.ClassFile.PoolReads.{over_zeros_all, Reads-pool}

All-map :
    {A : Type 0} {P Q : A → Type 0} (xs : List A) → ((a : A) → P a → Q a) → All P xs → All Q xs
All-map [] k h = tt
All-map (x ∷ xs) k h = (k x h.0, All-map xs k h.1)

Reads-content :
    (info : Bytes)
    → Reads (if ltb 0 (length info) then read_bytes (length info) else pure []) info info
Reads-content [] = Reads-pure []
Reads-content (b ∷ info) = rw (lt→ltb 0 (length (b ∷ info)) (omega arith)) (Reads-bytes (b ∷ info))

Reads-attribute : (a : AttributeInfo) → AttributeFits a → Reads read_attribute (write_attribute a) a
unfolding read_attribute
Reads-attribute a fits =
    Reads-bind read_zeroed_u2 _ (u2_bytes a.name_index) (u4_bytes (length a.info) ++ a.info)
      a.name_index a (Reads-zeroed_u2 a.name_index fits.0)
      (Reads-bind read_zeroed_u4 _ (u4_bytes (length a.info)) a.info (length a.info) a
        (Reads-zeroed_u4 (length a.info) fits.1)
        (rw (over_zeros_all a.info) at (
          Reads-map {B = AttributeInfo}
            (if ltb 0 (length a.info) then read_bytes (length a.info) else pure [])
            (λ v. record { name_index = a.name_index; info = over_zeros (length a.info) v }) a.info
            a.info (Reads-content a.info))))

Reads-attributes :
    (xs : List AttributeInfo)
    → All AttributeFits xs
    → Reads (read_attributes_section (length xs)) (write_all write_attribute xs) xs
unfolding read_attributes_section
Reads-attributes xs fits =
    Reads-times read_attribute write_attribute xs (All-map xs Reads-attribute fits)

-- `readFields` and `readMethods` read the members of a class alike.
Reads-field : (m : MemberInfo) → MemberFits m → Reads read_field (write_member m) m
unfolding read_field
Reads-field m fits =
    Reads-bind read_zeroed_u2 _ (u2_bytes m.access_flags) _ m.access_flags m
      (Reads-zeroed_u2 m.access_flags fits.access_flags)
      (Reads-bind read_zeroed_u2 _ (u2_bytes m.name_index) _ m.name_index m
        (Reads-zeroed_u2 m.name_index fits.name_index)
        (Reads-bind read_zeroed_u2 _ (u2_bytes m.descriptor_index) _ m.descriptor_index m
          (Reads-zeroed_u2 m.descriptor_index fits.descriptor_index)
          (Reads-bind read_u2 _ (u2_bytes (length m.attributes)) _ (length m.attributes) m
            (Reads-u2 (length m.attributes) fits.count)
            (Reads-map {B = MemberInfo} (read_attributes_section (length m.attributes))
              (λ xs. record m { attributes = xs }) _ m.attributes
              (Reads-attributes m.attributes fits.attributes)))))

Reads-method : (m : MemberInfo) → MemberFits m → Reads read_method (write_member m) m
unfolding read_method
Reads-method m fits =
    Reads-bind read_u2 _ (u2_bytes m.access_flags) _ m.access_flags m
      (Reads-u2 m.access_flags fits.access_flags)
      (Reads-bind read_u2 _ (u2_bytes m.name_index) _ m.name_index m
        (Reads-u2 m.name_index fits.name_index)
        (Reads-bind read_u2 _ (u2_bytes m.descriptor_index) _ m.descriptor_index m
          (Reads-u2 m.descriptor_index fits.descriptor_index)
          (Reads-bind read_u2 _ (u2_bytes (length m.attributes)) _ (length m.attributes) m
            (Reads-u2 (length m.attributes) fits.count)
            (Reads-map {B = MemberInfo} (read_attributes_section (length m.attributes))
              (λ xs. record m { attributes = xs }) _ m.attributes
              (Reads-attributes m.attributes fits.attributes)))))

-- A counted list of whatever one reader reads.
Reads-counted :
    {A : Type 0} (p : Parse A) (write_one : A → Bytes) (xs : List A)
    → Word16 (length xs)
    → All (λ a. Reads p (write_one a) a) xs
    → Reads (read_u2 >>= times p) (counted write_one xs) xs
Reads-counted p write_one xs fits h =
    Reads-bind read_u2 (times p) (u2_bytes (length xs)) (write_all write_one xs) (length xs) xs
      (Reads-u2 (length xs) fits) (Reads-times p write_one xs h)

Reads-main :
    (m : MainClassInfo)
    → Word16 m.access_flags
    → Word16 m.this_class
    → Word16 m.super_class
    → Reads read_main_class_info (write_main m) m
unfolding read_main_class_info
Reads-main m a t s =
    Reads-bind read_u2 _ (u2_bytes m.access_flags) _ m.access_flags m (Reads-u2 m.access_flags a) (
      Reads-bind read_u2 _ (u2_bytes m.this_class) _ m.this_class m (Reads-u2 m.this_class t) (
        Reads-map {B = MainClassInfo} read_u2 (λ c. record m { super_class = c })
          (u2_bytes m.super_class) m.super_class (Reads-u2 m.super_class s)))

module _ (w : Written) (fits : WrittenFits w) where
  Reads-interfaces : Reads read_interfaces (counted u2_bytes w.interfaces) w.interfaces
  unfolding read_interfaces
  Reads-interfaces =
      Reads-counted read_zeroed_u2 u2_bytes w.interfaces fits.interface_count
        (All-map w.interfaces Reads-zeroed_u2 fits.interfaces)

  Reads-fields : Reads read_fields (counted write_member w.fields) w.fields
  unfolding read_fields
  Reads-fields =
      Reads-counted read_field write_member w.fields fits.field_count
        (All-map w.fields Reads-field fits.fields)

  Reads-methods : Reads read_methods (counted write_member w.methods) w.methods
  unfolding read_methods
  Reads-methods =
      Reads-counted read_method write_member w.methods fits.method_count
        (All-map w.methods Reads-method fits.methods)

  Reads-all_attributes : Reads read_attributes (counted write_attribute w.attributes) w.attributes
  unfolding read_attributes read_attributes_section
  Reads-all_attributes =
      Reads-counted read_attribute write_attribute w.attributes fits.attribute_count
        (All-map w.attributes Reads-attribute fits.attributes)

  pub Reads-body : Reads process_file (write_body w) (parsed_class w)
  unfolding process_file
  Reads-body =
      let result = parsed_class w in
      Reads-bind read_constants_pool _ (write_pool w.constants) _
        (empty_pool ++ pool_of w.constants) result (Reads-pool w.constants fits.constants fits.pool)
        (Reads-bind read_main_class_info _ (write_main w.main_class_info) _ w.main_class_info result
          (Reads-main w.main_class_info fits.access_flags fits.this_class fits.super_class)
          (Reads-bind read_interfaces _ (counted u2_bytes w.interfaces) _ w.interfaces result
            Reads-interfaces
            (Reads-bind read_fields _ (counted write_member w.fields) _ w.fields result Reads-fields
              (Reads-bind read_methods _ (counted write_member w.methods) _ w.methods result
                Reads-methods
                (Reads-map {B = ClassFile} read_attributes (λ xs. record result { attributes = xs })
                  (counted write_attribute w.attributes) w.attributes Reads-all_attributes)))))
