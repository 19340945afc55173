-- ===== src/Specifier/Tests.antt =====
-- Specifiers as bytes, and the theorems applied.
use fire_wire_audio.Prelude.{◌≡◌, refl, [], ◌∷◌, some, arith, length}
use fire_wire_audio.Specifier.{
  type_byte, specifier_fields, field, append_bytes, bytes_of, ◌then_field◌, get_effective_size,
  build_descriptor_specifier, parse_descriptor_specifier, get_descriptor_specifier_expected_size,
  by_id, by_position,
}
use fire_wire_audio.Specifier.DescriptorSpecifierType.{list_by_id, entry_by_position_in_list_id}
use fire_wire_audio.Specifier.Laws.{arguments_of, standard, list_id_size}

built_position :
    build_descriptor_specifier entry_by_position_in_list_id standard
      (arguments_of (by_position 0x1001 3))
    ≡ 0x20 ∷ 0x10 ∷ 0x01 ∷ 0 ∷ 3 ∷ []
unfolding build_descriptor_specifier specifier_fields field append_bytes bytes_of ◌then_field◌
    get_effective_size type_byte arguments_of
built_position = refl

list_id_size_example :
    (length (
        build_descriptor_specifier list_by_id
          (record standard { list_id = 4 })
          (arguments_of (by_id 7)))
      ≡ 5)
    × (get_descriptor_specifier_expected_size
          (record standard { list_id = 4 })
          (some (
            build_descriptor_specifier list_by_id
              (record standard { list_id = 4 })
              (arguments_of (by_id 7))))
        ≡ 3)
    × ((parse_descriptor_specifier
          (record standard { list_id = 4 })
          (some (
            build_descriptor_specifier list_by_id
              (record standard { list_id = 4 })
              (arguments_of (by_id 7))))).consumed_size
        ≡ 3)
list_id_size_example = list_id_size 7 4 (omega arith) (omega arith)
