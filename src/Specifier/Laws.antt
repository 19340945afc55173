-- ===== src/Specifier/Laws.antt =====
-- What building and parsing specifiers promise, and what they do not.
use fire_wire_audio.Prelude.{
  ℕ, zero, suc, ◌+◌, ◌^◌, ◌≤◌, ◌<◌, ◌≡◌, refl, List, ◌∷◌, Option, none, some, arith, ltb, ◌==◌,
  ◌||◌, if◌then◌else◌, length,
}
use fire_wire_audio.Specifier.{
  DescriptorSpecifierType, type_byte, type_of_byte, Sizes, Arguments, get_effective_size, bytes_of,
  append_bytes, field, specifier_fields, build_descriptor_specifier, SpecificData, monostate,
  unit_subunit, by_id, by_type, by_position, parse_fields, parse_descriptor_specifier,
  expected_of_type, get_descriptor_specifier_expected_size,
}
use fire_wire_audio.Specifier.DescriptorSpecifierType.{
  unit_subunit_identifier, list_by_id, list_by_type, entry_by_position_in_list_id, unknown,
  entry_by_object_id_general,
}

-- A specifier with fields, as the builder's arguments.
unfoldable pub type_of_data : SpecificData → DescriptorSpecifierType
type_of_data monostate = unknown
type_of_data unit_subunit = unit_subunit_identifier
type_of_data (by_id l) = list_by_id
type_of_data (by_type t) = list_by_type
type_of_data (by_position l e) = entry_by_position_in_list_id

abbrev pub no_arguments : Arguments
no_arguments = record {
  list_id = none;
  object_id = none;
  entry_position = none;
  list_or_entry_type = none;
  root_list_id = none;
  subunit_specifier = none;
}

unfoldable pub arguments_of : SpecificData → Arguments
arguments_of monostate = no_arguments
arguments_of unit_subunit = no_arguments
arguments_of (by_id l) = record no_arguments { list_id = some l }
arguments_of (by_type t) = record no_arguments { list_or_entry_type = some t }
arguments_of (by_position l e) = record no_arguments { list_id = some l; entry_position = some e }

-- The fields fit two bytes, and a type one; no data is no specifier.
unfoldable pub IsReadable : SpecificData → Type 0
IsReadable monostate = ⊥
IsReadable unit_subunit = Unit
IsReadable (by_id l) = l < 2 ^ 16
IsReadable (by_type t) = t < 2 ^ 8
IsReadable (by_position l e) = (l < 2 ^ 16) × (e < 2 ^ 16)

-- The target gave no sizes, or those of the standard.
abbrev pub standard : Sizes
standard = record { list_id = 2; object_id = 0; entry_pos = 2 }

-- The parser consumes what the expected size says, or nothing when the buffer holds less than that.
pub parse_consumes :
    (sizes : Sizes) (b : ℕ) (rest : List ℕ)
    → let buffer = some (b ∷ rest) in
      let parsed = parse_descriptor_specifier sizes buffer in
      let expected = get_descriptor_specifier_expected_size sizes buffer in
      parsed.consumed_size ≡ (if ltb (suc (length rest)) expected then 0 else expected)
unfolding parse_descriptor_specifier get_descriptor_specifier_expected_size parse_fields
    expected_of_type
parse_consumes sizes b rest = fields (type_of_byte b)
  where
    fields :
        (t : DescriptorSpecifierType)
        → (parse_fields t rest).consumed_size
          ≡ (if ltb (suc (length rest)) (expected_of_type t) then 0 else expected_of_type t)
    fields t = ground arith

length-bytes_of : (value n : ℕ) → length (bytes_of value n) ≡ n
unfolding bytes_of
length-bytes_of value zero = refl
length-bytes_of value (suc n) = omega (arith, length-bytes_of value n)

-- A list identifier of `n` bytes, for a target that reports `n`, is built as 1 + n bytes, but of
-- them the parser consumes three and the expected size is three: both read another number of bytes
-- than were built unless `n` is two.
pub list_id_size :
    (list n : ℕ)
    → 2 ≤ n
    → n ≤ 8
    → let sizes = record standard { list_id = n } in
      let built = build_descriptor_specifier list_by_id sizes (arguments_of (by_id list)) in
      (length built ≡ 1 + n)
      × (get_descriptor_specifier_expected_size sizes (some built) ≡ 3)
      × ((parse_descriptor_specifier sizes (some built)).consumed_size ≡ 3)
unfolding build_descriptor_specifier specifier_fields field append_bytes get_effective_size
    type_byte type_of_byte arguments_of parse_descriptor_specifier parse_fields
    get_descriptor_specifier_expected_size expected_of_type
list_id_size list n low high = ground (arith, length-bytes_of list n)

-- A specifier by object identifier alone is built, one byte longer than the size that the target
-- reports, just when the identifier is given and that size is from 1 to 8; else the result is empty.
pub object_id_size :
    (object : Option ℕ) (n : ℕ)
    → let sizes = record standard { object_id = n } in
      let args = record no_arguments { object_id = object } in
      length (build_descriptor_specifier entry_by_object_id_general sizes args)
      ≡ elim object [ none ↦ 0 | some v ↦ if n == 0 || ltb 8 n then 0 else 1 + n ]
unfolding build_descriptor_specifier specifier_fields field append_bytes get_effective_size
    type_byte
object_id_size none n = refl
object_id_size (some v) n = ground (arith, length-bytes_of v n)
