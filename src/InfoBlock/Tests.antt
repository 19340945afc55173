-- ===== src/InfoBlock/Tests.antt =====
-- Info blocks as bytes, and the theorems applied.
use fire_wire_audio.Prelude.{◌<◌, ◌+◌, ◌≡◌, refl, ℕ, List, [], ◌∷◌, arith, length, take}
use fire_wire_audio.InfoBlock.{avc_info_block, parse_block, parse_nested}
use fire_wire_audio.InfoBlock.Fields.{
  parse_primary_fields_internal, parse_by_type, type_of_code, raw_text_data, cluster_info_data,
  trim_nulls,
}
use fire_wire_audio.InfoBlock.Content.{Carries, Says}
use fire_wire_audio.InfoBlock.Print.{
  InfoTree, info_tree, one_more, no_trees, print, with_header, IsPrintable, shape,
}
use fire_wire_audio.InfoBlock.RoundTrip.{parse_ends, parse_print}
use fire_wire_audio.InfoBlock.Tile.{tiles, all_raw_data}

-- A cluster of one signal, whose name is a nested block of raw text.
abbrev cluster_tree : InfoTree
cluster_tree =
    info_tree 0x810A (6 ∷ 0 ∷ 1 ∷ 0 ∷ 2 ∷ 0 ∷ 1 ∷ [])
      (cluster_info_data 6 0 1
        (record { music_plug_id = 2; stream_position = 0; stream_location = 1 } ∷ []))
      (one_more (info_tree 0x000A (76 ∷ 0 ∷ []) (raw_text_data (76 ∷ [])) no_trees) no_trees)

unfoldable cluster_bytes : List ℕ
cluster_bytes =
    0 ∷ 19 ∷ 0x81 ∷ 0x0A ∷ 0 ∷ 7 ∷ 6 ∷ 0 ∷ 1 ∷ 0 ∷ 2 ∷ 0 ∷ 1 ∷ 0 ∷ 6 ∷ 0 ∷ 10 ∷ 0 ∷ 2 ∷ 76 ∷ 0 ∷ []

printed : print cluster_tree ≡ cluster_bytes
unfolding print with_header cluster_bytes
printed = refl

cluster_tree-IsPrintable : IsPrintable cluster_tree
unfolding IsPrintable print with_header Carries Says
cluster_tree-IsPrintable = (
  omega arith,
  (λ e. omega arith),
  omega arith,
  (refl, refl, (omega arith, tt), refl),
  ((omega arith, (λ e. omega arith), omega arith, (refl, (λ e. omega arith), (1, refl)), tt), tt),
)

parse_print_example : shape (avc_info_block (print cluster_tree)) ≡ cluster_tree
parse_print_example = parse_print cluster_tree cluster_tree-IsPrintable

parse_ends_example : parse_block 100 cluster_bytes ≡ avc_info_block cluster_bytes
unfolding cluster_bytes
parse_ends_example = parse_ends 100 cluster_bytes (omega arith)

abbrev two_blocks : List ℕ
two_blocks = 0 ∷ 2 ∷ 0 ∷ 10 ∷ 0 ∷ 9 ∷ 0 ∷ 11 ∷ 1 ∷ []

tiles_example :
    (all_raw_data (parse_nested 10 two_blocks)
      ≡ take (length (all_raw_data (parse_nested 10 two_blocks))) two_blocks)
    × (length two_blocks < length (all_raw_data (parse_nested 10 two_blocks)) + 4)
tiles_example = tiles 10 two_blocks (omega arith)

trimmed :
    parse_primary_fields_internal 0x000A 3 (0 ∷ 7 ∷ 0 ∷ 10 ∷ 0 ∷ 3 ∷ 76 ∷ 0 ∷ 0 ∷ [])
    ≡ raw_text_data (76 ∷ [])
unfolding parse_primary_fields_internal parse_by_type type_of_code trim_nulls
trimmed = refl
