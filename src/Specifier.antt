-- ===== src/Specifier.antt =====
-- src/FWA/DescriptorUtils.cpp: the AV/C descriptor specifiers as bytes. `none` is an empty
-- `std::optional`, and of a buffer a null pointer. src/FWA/DescriptorSpecifier.cpp holds an older
-- copy of these functions with internal linkage, which nothing calls.
pub mod Laws
mod Tests
use fire_wire_audio.Prelude.{
  ℕ, zero, suc, ◌+◌, ◌-◌, ◌*◌, ◌/◌, ◌%◌, ◌^◌, List, [], ◌∷◌, ◌++◌, Option, none, some, ltb, ◌==◌,
  ◌||◌, if◌then◌else◌, length, get_or, drop, take,
}

-- An enumeration over a byte: a value that it does not name is `unlisted`.
pub data DescriptorSpecifierType : Type 0 where
  unit_subunit_identifier list_by_id list_by_type entry_by_position_in_list_id :
      DescriptorSpecifierType
  entry_by_object_id_in_list_type_root entry_by_type_create : DescriptorSpecifierType
  entry_by_object_id_general entry_by_object_id_in_subunit_list_type_root : DescriptorSpecifierType
  entry_by_object_id_in_subunit info_by_type_and_instance info_by_position : DescriptorSpecifierType
  subunit_dependent_start subunit_dependent_end unknown : DescriptorSpecifierType
  unlisted : ℕ → DescriptorSpecifierType

unfoldable pub type_byte : DescriptorSpecifierType → ℕ
type_byte unit_subunit_identifier = 0x00
type_byte list_by_id = 0x10
type_byte list_by_type = 0x11
type_byte entry_by_position_in_list_id = 0x20
type_byte entry_by_object_id_in_list_type_root = 0x21
type_byte entry_by_type_create = 0x22
type_byte entry_by_object_id_general = 0x23
type_byte entry_by_object_id_in_subunit_list_type_root = 0x24
type_byte entry_by_object_id_in_subunit = 0x25
type_byte info_by_type_and_instance = 0x30
type_byte info_by_position = 0x31
type_byte subunit_dependent_start = 0x80
type_byte subunit_dependent_end = 0xBF
type_byte unknown = 0xFF
type_byte (unlisted b) = b

-- `static_cast` from a byte.
unfoldable pub type_of_byte : ℕ → DescriptorSpecifierType
type_of_byte b =
    if b == 0x00
    then unit_subunit_identifier
    else if b == 0x10
    then list_by_id
    else if b == 0x11
    then list_by_type
    else if b == 0x20
    then entry_by_position_in_list_id
    else if b == 0x21
    then entry_by_object_id_in_list_type_root
    else if b == 0x22
    then entry_by_type_create
    else if b == 0x23
    then entry_by_object_id_general
    else if b == 0x24
    then entry_by_object_id_in_subunit_list_type_root
    else if b == 0x25
    then entry_by_object_id_in_subunit
    else if b == 0x30
    then info_by_type_and_instance
    else if b == 0x31
    then info_by_position
    else if b == 0x80
    then subunit_dependent_start
    else if b == 0xBF
    then subunit_dependent_end
    else if b == 0xFF
    then unknown
    else unlisted b

abbrev pub default_size_of_list_id : ℕ
default_size_of_list_id = 2

abbrev pub default_size_of_object_id : ℕ
default_size_of_object_id = 0

abbrev pub default_size_of_entry_pos : ℕ
default_size_of_entry_pos = 2

pub record Sizes : Type 0 where
  pub list_id : ℕ
  pub object_id : ℕ
  pub entry_pos : ℕ

pub record Arguments : Type 0 where
  pub list_id : Option ℕ
  pub object_id : Option ℕ
  pub entry_position : Option ℕ
  pub list_or_entry_type : Option ℕ
  pub root_list_id : Option ℕ
  pub subunit_specifier : Option (List ℕ)

unfoldable pub get_effective_size : ℕ → ℕ → ℕ
get_effective_size dynamic default_size = if dynamic == 0 then default_size else dynamic

-- The low `n` bytes, the most significant first.
unfoldable pub bytes_of : ℕ → ℕ → List ℕ
bytes_of value zero = []
bytes_of value (suc n) = value / 2 ^ (8 * n) % 2 ^ 8 ∷ bytes_of value n

unfoldable pub append_bytes : ℕ → ℕ → Option (List ℕ)
unfolding bytes_of
append_bytes value n = if n == 0 || ltb 8 n then none else some (bytes_of value n)

-- A field that an argument fills, and a byte that one fills; `none` fails.
unfoldable pub field : Option ℕ → ℕ → Option (List ℕ)
unfolding append_bytes
field none n = none
field (some value) n = append_bytes value n

unfoldable pub byte_field : Option ℕ → Option (List ℕ)
byte_field none = none
byte_field (some b) = some (b ∷ [])

infixr 40 ◌then_field◌
unfoldable pub ◌then_field◌ : Option (List ℕ) → Option (List ℕ) → Option (List ℕ)
none then_field ys = none
(some xs) then_field none = none
(some xs) then_field (some ys) = some (xs ++ ys)

-- What follows the type byte. A field of size 0 fails in `append_bytes`.
unfoldable pub specifier_fields : DescriptorSpecifierType → Sizes → Arguments → Option (List ℕ)
unfolding field byte_field ◌then_field◌ get_effective_size
specifier_fields type sizes args =
    let list_size = get_effective_size sizes.list_id default_size_of_list_id in
    let object_size = get_effective_size sizes.object_id default_size_of_object_id in
    let entry_size = get_effective_size sizes.entry_pos default_size_of_entry_pos in
    elim type [
      | unit_subunit_identifier ↦ some []
      | list_by_id ↦ field args.list_id list_size
      | list_by_type ↦ byte_field args.list_or_entry_type
      | entry_by_position_in_list_id ↦
          field args.list_id list_size then_field field args.entry_position entry_size
      | entry_by_object_id_in_list_type_root ↦
          field args.root_list_id list_size
          then_field byte_field args.list_or_entry_type
          then_field field args.object_id object_size
      | entry_by_type_create ↦ byte_field args.list_or_entry_type
      | entry_by_object_id_general ↦ field args.object_id object_size
      | entry_by_object_id_in_subunit_list_type_root ↦
          args.subunit_specifier
          then_field field args.root_list_id list_size
          then_field byte_field args.list_or_entry_type
          then_field field args.object_id object_size
      | entry_by_object_id_in_subunit ↦
          args.subunit_specifier then_field field args.object_id object_size
      | subunit_dependent_start ↦ some []
      | subunit_dependent_end ↦ some []
      | _ ↦ none
    ]

-- An empty vector is the error result.
unfoldable pub build_descriptor_specifier : DescriptorSpecifierType → Sizes → Arguments → List ℕ
unfolding type_byte specifier_fields
build_descriptor_specifier type sizes args = elim (specifier_fields type sizes args) [
  | none ↦ []
  | some fields ↦ type_byte type ∷ fields
]

-- The parsed variants; `monostate` is no data.
pub data SpecificData : Type 0 where
  monostate unit_subunit : SpecificData
  by_id by_type : ℕ → SpecificData
  by_position : ℕ → ℕ → SpecificData

pub record ParsedDescriptorSpecifier : Type 0 where
  pub type : DescriptorSpecifierType
  pub consumed_size : ℕ
  pub specific_data : SpecificData

-- `n` bytes from the front, the most significant first, in 64 bits.
unfoldable pub read_bytes : ℕ → List ℕ → ℕ → ℕ
read_bytes val buffer zero = val
read_bytes val [] (suc n) = val
read_bytes val (b ∷ buffer) (suc n) = read_bytes ((val * 2 ^ 8) % 2 ^ 64 + b) buffer n

abbrev pub parse_error : ParsedDescriptorSpecifier
parse_error = record { type = unknown; consumed_size = 0; specific_data = monostate }

-- The fields after the type byte. The sizes that the target reported are not used.
unfoldable pub parse_fields : DescriptorSpecifierType → List ℕ → ParsedDescriptorSpecifier
unfolding read_bytes
parse_fields type rest = elim type [
  | unit_subunit_identifier ↦ record {
    type = unit_subunit_identifier;
    consumed_size = 1;
    specific_data = unit_subunit;
  }
  | list_by_id ↦ if ltb (length rest) 2 then parse_error else record {
    type = list_by_id;
    consumed_size = 3;
    specific_data = by_id (read_bytes 0 rest 2);
  }
  | list_by_type ↦ if ltb (length rest) 1 then parse_error else record {
    type = list_by_type;
    consumed_size = 2;
    specific_data = by_type (get_or rest 0 0);
  }
  | entry_by_position_in_list_id ↦
      if ltb (length rest) 2
      then parse_error
      else if ltb (length rest - 2) 2
      then parse_error
      else record {
        type = entry_by_position_in_list_id;
        consumed_size = 5;
        specific_data = by_position (read_bytes 0 rest 2) (read_bytes 0 (drop 2 rest) 2);
      }
  | subunit_dependent_start ↦ record {
    type = subunit_dependent_start;
    consumed_size = 1;
    specific_data = monostate;
  }
  | subunit_dependent_end ↦ record {
    type = subunit_dependent_end;
    consumed_size = 1;
    specific_data = monostate;
  }
  | _ ↦ parse_error
]

unfoldable pub parse_descriptor_specifier : Sizes → Option (List ℕ) → ParsedDescriptorSpecifier
unfolding parse_fields type_of_byte
parse_descriptor_specifier sizes none = parse_error
parse_descriptor_specifier sizes (some []) = parse_error
parse_descriptor_specifier sizes (some (b ∷ rest)) = parse_fields (type_of_byte b) rest

unfoldable pub expected_of_type : DescriptorSpecifierType → ℕ
expected_of_type type = elim type [
  | unit_subunit_identifier ↦ 1
  | list_by_id ↦ 1 + default_size_of_list_id
  | list_by_type ↦ 2
  | entry_by_position_in_list_id ↦ 1 + default_size_of_list_id + default_size_of_entry_pos
  | subunit_dependent_start ↦ 1
  | subunit_dependent_end ↦ 1
  | _ ↦ 0
]

unfoldable pub get_descriptor_specifier_expected_size : Sizes → Option (List ℕ) → ℕ
unfolding expected_of_type type_of_byte
get_descriptor_specifier_expected_size sizes none = 0
get_descriptor_specifier_expected_size sizes (some []) = 0
get_descriptor_specifier_expected_size sizes (some (b ∷ rest)) = expected_of_type (type_of_byte b)
