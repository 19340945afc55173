-- ===== src/InfoBlock/Tile.antt =====
-- src/FWA/AVCInfoBlock.cpp, the loop of `parse`: what becomes of the nested area's bytes.
use fire_wire_audio.Prelude.{
  ℕ, zero, suc, ◌+◌, ◌≤◌, ◌<◌, ◌≡◌, refl, ap, ap₂, ◌∙◌, inl, inr, min, List, [], ◌++◌, arith, ltb,
  length, drop, take, length-take, length-drop, length-append, take_more, Bool-cases, ltb→lt,
  ltb_false→le,
}
use fire_wire_audio.InfoBlock.{
  AvcInfoBlock, NestedBlocks, info_block, no_blocks, push_block, parse_block, parse_nested,
}
use fire_wire_audio.InfoBlock.Fields.{word16}

-- The raw data of one block, and of blocks one after the other.
unfoldable pub get_raw_data : AvcInfoBlock → List ℕ
get_raw_data (info_block raw type compound primary_length fields nested) = raw

unfoldable pub all_raw_data : NestedBlocks → List ℕ
unfolding get_raw_data
all_raw_data no_blocks = []
all_raw_data (push_block b bs) = get_raw_data b ++ all_raw_data bs

parse_block-get_raw_data : (fuel : ℕ) (raw : List ℕ) → get_raw_data (parse_block fuel raw) ≡ raw
unfolding get_raw_data parse_block
parse_block-get_raw_data zero raw = refl
parse_block-get_raw_data (suc fuel) raw = ground arith

-- A beginning of the area, and a beginning of what is behind it.
joined :
    (n : ℕ) (area front rest : List ℕ)
    → n ≤ length area
    → front ≡ take n area
    → rest ≡ take (length rest) (drop n area)
    → length (drop n area) < length rest + 4
    → (front ++ rest ≡ take (length (front ++ rest)) area)
      × (length area < length (front ++ rest) + 4)
joined n area front rest h e e' short =
    let size : length (front ++ rest) ≡ n + length rest =
      omega (arith, length-append front rest, ap length e, length-take n area) in
    (
      ap₂ (λ xs ys. xs ++ ys) e e' ∙ take_more n (length rest) (length (front ++ rest)) area size,
      omega (arith, size, length-drop n area),
    )

-- With enough fuel the data of the blocks that the loop makes is, in their order, the beginning of
-- the area, and fewer than four bytes are left over.
pub tiles :
    (fuel : ℕ) (area : List ℕ)
    → length area < fuel
    → let found = all_raw_data (parse_nested fuel area) in
      (found ≡ take (length found) area) × (length area < length found + 4)
unfolding all_raw_data parse_nested
tiles zero area h = absurd (omega arith)
tiles (suc fuel) area h = elim (Bool-cases (ltb (length area) 4)) [
  | inl short ↦ rw short (refl, ltb→lt _ _ short)
  | inr long ↦ elim (Bool-cases (ltb (length area) (word16 area 0 + 2))) [
    | inl cut ↦
        let all : min (word16 area 0 + 2) (length area) ≡ length area = ground arith in
        rw (long, cut)
          (joined (length area) area _ [] (omega arith)
            (parse_block-get_raw_data fuel _ ∙ ap (λ n. take n area) all) refl
            (omega (arith, length-drop (length area) area)))
    | inr whole ↦
        let claimed : min (word16 area 0 + 2) (length area) ≡ word16 area 0 + 2 = ground arith in
        let later =
          tiles fuel (drop (word16 area 0 + 2) area)
            (ground (arith, length-drop (word16 area 0 + 2) area)) in
        rw (long, whole)
          (joined (word16 area 0 + 2) area _ _ (ltb_false→le _ _ whole)
            (parse_block-get_raw_data fuel _ ∙ ap (λ n. take n area) claimed) later.0 later.1)
  ]
]
