-- ===== src/InfoBlock.antt =====
-- src/FWA/AVCInfoBlock.cpp, the constructor and `parse`: an info block of AV/C descriptors, whose nested
-- blocks are info blocks. The offset of the source's loop is here the part of the data that is still
-- to be read. Fuel stands for the nesting and the loop; the number of bytes is enough of it.
pub mod Fields
pub mod Content
pub mod Print
pub mod RoundTrip
pub mod Tile
mod Tests
use fire_wire_audio.Prelude.{
  ℕ, zero, suc, ◌+◌, ◌-◌, ◌*◌, ◌^◌, min, List, [], ◌∷◌, ◌++◌, ltb, leb, ◌==◌, if◌then◌else◌, length,
  drop, take,
}
use fire_wire_audio.InfoBlock.Fields.{
  PrimaryFields, not_parsed, word16, parse_primary_fields_internal,
}

-- The data, the three header fields, the parsed fields and the nested blocks.
mutual
  pub data AvcInfoBlock : Type 0 where
    info_block : List ℕ → ℕ → ℕ → ℕ → PrimaryFields → NestedBlocks → AvcInfoBlock

  pub data NestedBlocks : Type 0 where
    no_blocks : NestedBlocks
    push_block : AvcInfoBlock → NestedBlocks → NestedBlocks

abbrev pub unknown_type : ℕ
unknown_type = 0xFFFF

-- Where the nested blocks lie: after the primary fields, up to the shorter of what the header claims
-- and what there is.
unfoldable pub nested_area : List ℕ → ℕ → ℕ → List ℕ
nested_area raw compound primary_length =
    let start = min (6 + primary_length) (length raw) in
    let limit = if ltb (compound + 2) (length raw) then compound + 2 else length raw in
    take (limit - start) (drop start raw)

-- The field after the type, when it is there.
abbrev pub primary_length_of : List ℕ → ℕ
primary_length_of raw = if leb 6 (length raw) then word16 raw 4 else 0

unfoldable mutual
  unfolding nested_area

  pub parse_block : ℕ → List ℕ → AvcInfoBlock
  parse_block zero raw = info_block raw unknown_type 0 0 not_parsed no_blocks
  parse_block (suc fuel) raw =
      let nested = parse_nested fuel (nested_area raw (word16 raw 0) (primary_length_of raw)) in
      if ltb (length raw) 4
      then info_block raw unknown_type 0 0 not_parsed no_blocks
      else if word16 raw 2 == unknown_type
      then info_block raw (word16 raw 2) (word16 raw 0) (primary_length_of raw) not_parsed no_blocks
      else info_block raw (word16 raw 2) (word16 raw 0) (primary_length_of raw)
          (parse_primary_fields_internal (word16 raw 2) (primary_length_of raw) raw) nested

  -- The loop. A block that claims more than is left takes what is left and is the last one.
  pub parse_nested : ℕ → List ℕ → NestedBlocks
  parse_nested zero area = no_blocks
  parse_nested (suc fuel) area =
      let claimed = word16 area 0 + 2 in
      let child = parse_block fuel (take (min claimed (length area)) area) in
      let rest = parse_nested fuel (drop claimed area) in
      if ltb (length area) 4
      then no_blocks
      else if ltb (length area) claimed
      then push_block child no_blocks
      else push_block child rest

-- The constructor.
unfoldable pub avc_info_block : List ℕ → AvcInfoBlock
avc_info_block raw = parse_block (suc (length raw)) raw
