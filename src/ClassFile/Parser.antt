-- ===== src/ClassFile/Parser.antt =====
-- src/domain/classfile/ClassFileParser.cpp.
use tarracsh.Prelude.{
  ℕ, zero, suc, ◌+◌, List, [], ◌∷◌, ◌==◌, ltb, if◌then◌else◌, Option, none, some,
}
use tarracsh.Outcome.{Outcome, ok, threw, fault, out_of_fuel}
use tarracsh.ClassFile.Reader.{
  Reader, Parse, ◌>>=◌, pure, raise, read_bytes, read_raw, over_zeros, read_u1, read_u2, read_u4,
  read_zeroed_u2, read_zeroed_u4,
}
use tarracsh.ClassFile.Pool.{
  Bytes, Constant, utf8_info, integer_info, float_info, long_info, double_info, class_info,
  string_info, fieldref_info, methodref_info, interface_methodref_info, name_and_type_info,
  method_handle_info, method_type_info, dynamic_info, invoke_dynamic_info, module_info,
  package_info, ConstantPool, empty_pool, add_record, add_empty_index,
}

-- `AttributeInfo`; its owner is known from where it stands.
pub record AttributeInfo : Type 0 where
  pub name_index : ℕ
  pub info : Bytes

-- `FieldInfo` and `MethodInfo`, which have the same fields.
pub record MemberInfo : Type 0 where
  pub access_flags : ℕ
  pub name_index : ℕ
  pub descriptor_index : ℕ
  pub attributes : List AttributeInfo

pub record MainClassInfo : Type 0 where
  pub access_flags : ℕ
  pub this_class : ℕ
  pub super_class : ℕ

-- What a `ClassFileParser` holds after a successful parse.
pub record ClassFile : Type 0 where
  pub constant_pool : ConstantPool
  pub main_class_info : MainClassInfo
  pub interfaces : List ℕ
  pub fields : List MemberInfo
  pub methods : List MemberInfo
  pub attributes : List AttributeInfo

-- What an entry adds to the pool: nothing (tags 0 and 2, which are only reported), a record, or a
-- record and the empty index behind it, over which `index++` steps.
pub data Entry : Type 0 where
  skipped : Entry
  single : Constant → Entry
  wide : Constant → Entry

abbrev pub one : (ℕ → Constant) → Parse Entry
one make = do a ← read_u2; pure (single (make a))

abbrev pub two : (ℕ → ℕ → Constant) → Parse Entry
two make = do a ← read_u2; b ← read_u2; pure (single (make a b))

abbrev pub two_words : (ℕ → ℕ → Constant) → Parse Entry
two_words make = do a ← read_u4; b ← read_u4; pure (wide (make a b))

-- The switch of `readConstPoolEntry`.
unfoldable pub read_entry_of : ℕ → Parse Entry
read_entry_of tag =
    if tag == 1
    then (do
      length ← read_u2
      value ← read_raw length
      pure (single (utf8_info (over_zeros length value))))
    else if tag == 4
    then (do a ← read_u4; pure (single (float_info a)))
    else if tag == 3
    then (do a ← read_u4; pure (single (integer_info a)))
    else if tag == 5
    then two_words long_info
    else if tag == 6
    then two_words double_info
    else if tag == 16
    then one method_type_info
    else if tag == 8
    then one string_info
    else if tag == 7
    then one class_info
    else if tag == 12
    then two name_and_type_info
    else if tag == 10
    then two methodref_info
    else if tag == 9
    then two fieldref_info
    else if tag == 11
    then two interface_methodref_info
    else if tag == 15
    then (do kind ← read_u1; index ← read_u2; pure (single (method_handle_info kind index)))
    else if tag == 18
    then two invoke_dynamic_info
    else if tag == 19
    then one module_info
    else if tag == 20
    then one package_info
    else if tag == 17
    then two dynamic_info
    else if tag == 2
    then pure skipped
    else if tag == 0
    then pure skipped
    else raise

-- `readConstPoolEntry`
unfoldable pub read_const_pool_entry : Parse Entry
unfolding read_u1 read_entry_of
read_const_pool_entry = do tag ← read_u1; read_entry_of tag

unfoldable pub add_entry : Entry → ConstantPool → ConstantPool
unfolding add_record add_empty_index
add_entry skipped pool = pool
add_entry (single c) pool = add_record c pool
add_entry (wide c) pool = add_empty_index (add_record c pool)

-- By how much a round of the loop moves `index`.
abbrev pub slots : Entry → ℕ
slots (wide c) = 2
slots e = 1

-- The loop of `readConstantsPool`, on fuel.
unfoldable pub read_entries : ℕ → ℕ → ℕ → ConstantPool → Parse ConstantPool
read_entries zero index count pool = λ r. out_of_fuel
read_entries (suc f) index count pool =
    let more =
      read_const_pool_entry >>= λ e. read_entries f (index + slots e) count (add_entry e pool) in
    if ltb index count then more else pure pool

-- `readConstantsPool`; `index` grows from 1 to `count` at least, so `count` rounds are enough.
unfoldable pub read_constants_pool : Parse ConstantPool
read_constants_pool = do count ← read_u2; read_entries (suc count) 1 count empty_pool

unfoldable pub read_main_class_info : Parse MainClassInfo
read_main_class_info = do
  access_flags ← read_u2
  this_class ← read_u2
  super_class ← read_u2
  pure (record { access_flags = access_flags; this_class = this_class; super_class = super_class })

-- `for (auto i = 0; i < count; ++i)`, with what each round appends.
unfoldable pub times : {A : Type 0} → Parse A → ℕ → Parse (List A)
times p zero = pure []
times p (suc n) = do a ← p; rest ← times p n; pure (a ∷ rest)

-- `readInterfaces`, into a vector of zeros.
unfoldable pub read_interfaces : Parse (List ℕ)
read_interfaces = do count ← read_u2; times read_zeroed_u2 count

-- A round of `readAttributesSection`. The content is read by `readBytes` itself, which does not
-- count it in `_bytesRead`, into a vector of zeros.
unfoldable pub read_attribute : Parse AttributeInfo
unfolding read_bytes
read_attribute = do
  name_index ← read_zeroed_u2
  length ← read_zeroed_u4
  info ← (if ltb 0 length then read_bytes length else pure [])
  pure (record { name_index = name_index; info = over_zeros length info })

-- `readAttributesSection`
unfoldable pub read_attributes_section : ℕ → Parse (List AttributeInfo)
read_attributes_section count = times read_attribute count

-- A round of `readFields`.
unfoldable pub read_field : Parse MemberInfo
read_field = do
  access_flags ← read_zeroed_u2
  name_index ← read_zeroed_u2
  descriptor_index ← read_zeroed_u2
  attribute_count ← read_u2
  attributes ← read_attributes_section attribute_count
  pure (record {
    access_flags = access_flags;
    name_index = name_index;
    descriptor_index = descriptor_index;
    attributes = attributes;
  })

-- A round of `readMethods`.
unfoldable pub read_method : Parse MemberInfo
read_method = do
  access_flags ← read_u2
  name_index ← read_u2
  descriptor_index ← read_u2
  attribute_count ← read_u2
  attributes ← read_attributes_section attribute_count
  pure (record {
    access_flags = access_flags;
    name_index = name_index;
    descriptor_index = descriptor_index;
    attributes = attributes;
  })

unfoldable pub read_fields : Parse (List MemberInfo)
read_fields = do count ← read_u2; times read_field count

unfoldable pub read_methods : Parse (List MemberInfo)
read_methods = do count ← read_u2; times read_method count

unfoldable pub read_attributes : Parse (List AttributeInfo)
read_attributes = do count ← read_u2; read_attributes_section count

-- `processFile`
unfoldable pub process_file : Parse ClassFile
process_file = do
  constant_pool ← read_constants_pool
  main_class_info ← read_main_class_info
  interfaces ← read_interfaces
  fields ← read_fields
  methods ← read_methods
  attributes ← read_attributes
  pure (record {
    constant_pool = constant_pool;
    main_class_info = main_class_info;
    interfaces = interfaces;
    fields = fields;
    methods = methods;
    attributes = attributes;
  })

-- The handlers of `internalParse`: every exception makes it return false.
abbrev pub caught : Outcome (ClassFile × Reader) → Outcome (Option ClassFile)
caught (ok (c, r)) = ok (some c)
caught threw = ok none
caught fault = fault
caught out_of_fuel = out_of_fuel

-- `parse`: `some` where it returns true.
unfoldable pub parse : Reader → Outcome (Option ClassFile)
parse r = if r.is_valid_header then caught (process_file r) else ok none
