-- ===== src/InfoBlock/RoundTrip.antt =====
-- Parsing what was printed gives it back, and parsing ends by itself.
use fire_wire_audio.Prelude.{
  ℕ, zero, suc, ◌+◌, ◌-◌, ◌*◌, ◌/◌, ◌%◌, ◌^◌, ◌≤◌, ◌<◌, ◌≡◌, ◌≢◌, refl, ap, ap₂, sym, ◌∙◌, min,
  false, List, [], ◌∷◌, ◌++◌, arith, ltb, ◌==◌, if◌then◌else◌, length, drop, take, length-take,
  length-drop, length-append, take_all, take-append, drop-append, drop-drop,
}
use fire_wire_audio.InfoBlock.{
  unknown_type, nested_area, primary_length_of, parse_block, parse_nested, avc_info_block,
}
use fire_wire_audio.InfoBlock.Fields.{PrimaryFields, word16, parse_primary_fields_internal}
use fire_wire_audio.InfoBlock.Content.{Carries, parse-Says}
use fire_wire_audio.InfoBlock.Print.{
  InfoTree, InfoTrees, info_tree, no_trees, one_more, with_header, print, print_all, IsPrintable,
  ArePrintable, shape, shapes,
}

-- The nested blocks lie behind the six bytes of the header.
pub length-nested_area : (raw : List ℕ) (c p : ℕ) → length (nested_area raw c p) ≤ length raw - 6
unfolding nested_area
length-nested_area raw c p = ground (
  arith,
  length-take ((if ltb (c + 2) (length raw) then c + 2 else length raw) - min (6 + p) (length raw))
      (drop (min (6 + p) (length raw)) raw),
  length-drop (min (6 + p) (length raw)) raw,
)

mutual
  unfolding parse_block

  block_fuel :
      (f g : ℕ) (raw : List ℕ)
      → length raw < f
      → length raw < g
      → parse_block f raw ≡ parse_block g raw
  block_fuel zero g raw hf hg = absurd (omega arith)
  block_fuel (suc f) zero raw hf hg = absurd (omega arith)
  block_fuel (suc f) (suc g) raw hf hg = ground (
    arith,
    nested_fuel f g (nested_area raw (word16 raw 0) (primary_length_of raw)),
    length-nested_area raw (word16 raw 0) (primary_length_of raw),
  )

  nested_fuel :
      (f g : ℕ) (area : List ℕ)
      → suc (length area) < f
      → suc (length area) < g
      → parse_nested f area ≡ parse_nested g area
  nested_fuel zero g area hf hg = absurd (omega arith)
  nested_fuel (suc f) zero area hf hg = absurd (omega arith)
  nested_fuel (suc f) (suc g) area hf hg = ground (
    arith,
    block_fuel f g (take (min (word16 area 0 + 2) (length area)) area),
    nested_fuel f g (drop (word16 area 0 + 2) area),
    length-take (min (word16 area 0 + 2) (length area)) area,
    length-drop (word16 area 0 + 2) area,
  )

-- The fuel of the constructor is enough: more changes nothing, for any data.
pub parse_ends :
    (fuel : ℕ) (raw : List ℕ) → length raw < fuel → parse_block fuel raw ≡ avc_info_block raw
unfolding avc_info_block
parse_ends fuel raw h = block_fuel fuel (suc (length raw)) raw h (omega arith)

two_bytes : (v : ℕ) → v < 2 ^ 16 → v / 2 ^ 8 % 2 ^ 8 * 2 ^ 8 + v % 2 ^ 8 ≡ v
two_bytes v h = omega arith

-- A header is read back, and behind its primary fields lies the nested area.
header_lem :
    (c t : ℕ) (primary body : List ℕ)
    → c ≡ 4 + length primary + length body
    → c < 2 ^ 16
    → t < 2 ^ 16
    → let raw = with_header c t (length primary) (primary ++ body) in
      (length raw ≡ 6 + length primary + length body)
      × (word16 raw 0 ≡ c)
      × (word16 raw 2 ≡ t)
      × (primary_length_of raw ≡ length primary)
      × (nested_area raw c (length primary) ≡ body)
      × (take (length primary) (drop 6 raw) ≡ primary)
unfolding with_header word16 nested_area
header_lem c t primary body e hc ht = (
  size,
  two_bytes c hc,
  two_bytes t ht,
  ground (arith, size, two_bytes (length primary) (omega arith)),
  ap₂ (λ n k. take n (drop k raw)) rest start
      ∙ ap (λ xs. take (length body) xs) behind
      ∙ take_all (length body) body (omega arith),
  take-append primary body,
)
  where
    raw : List ℕ
    raw = with_header c t (length primary) (primary ++ body)

    size : length raw ≡ 6 + length primary + length body
    size = omega (arith, length-append primary body)

    start : min (6 + length primary) (length raw) ≡ 6 + length primary
    start = omega (arith, size)

    rest :
        (if ltb (c + 2) (length raw) then c + 2 else length raw)
          - min (6 + length primary) (length raw)
        ≡ length body
    rest = ground (arith, size)

    behind : drop (6 + length primary) raw ≡ body
    behind =
        sym (drop-drop (length primary) 6 (6 + length primary) raw (omega arith))
        ∙ drop-append primary body

length-print :
    (t : InfoTree)
    → IsPrintable t
    → (length (print t) ≡ word16 (print t) 0 + 2) × (6 ≤ length (print t))
unfolding print IsPrintable with_header word16
length-print (info_tree type primary fields children) v =
    let own : 4 + length primary + length (print_all children) < 2 ^ 16 = v.2 in
    omega (
      arith,
      two_bytes (4 + length primary + length (print_all children)) own,
      length-append primary (print_all children),
    )

front_word : (t : InfoTree) (rest : List ℕ) → word16 (print t ++ rest) 0 ≡ word16 (print t) 0
unfolding print with_header word16
front_word (info_tree type primary fields children) rest = refl

-- The first block of an area, and what comes after it.
first_lem :
    (t : InfoTree) (rest : List ℕ)
    → IsPrintable t
    → let area = print t ++ rest in
      let claimed = word16 area 0 + 2 in
      (claimed ≡ length (print t))
      × (take (min claimed (length area)) area ≡ print t)
      × (drop claimed area ≡ rest)
      × (ltb (length area) 4 ≡ false)
      × (ltb (length area) claimed ≡ false)
first_lem t rest v =
    let (size, long) = length-print t v in
    let whole : length (print t ++ rest) ≡ length (print t) + length rest =
      length-append (print t) rest in
    let claim : word16 (print t ++ rest) 0 + 2 ≡ length (print t) =
      ap (λ n. n + 2) (front_word t rest) ∙ sym size in
    let shorter : min (word16 (print t ++ rest) 0 + 2) (length (print t ++ rest))
        ≡ length (print t) =
      omega arith in
    (
      claim,
      ap (λ n. take n (print t ++ rest)) shorter ∙ take-append (print t) rest,
      ap (λ n. drop n (print t ++ rest)) claim ∙ drop-append (print t) rest,
      ground arith,
      ground arith,
    )

-- The fields that a primary area carries are found in the block.
fields_lem :
    (t : ℕ) (raw d : List ℕ) (f : PrimaryFields)
    → Carries t d f
    → 6 + length d ≤ length raw
    → take (length d) (drop 6 raw) ≡ d
    → parse_primary_fields_internal t (length d) raw ≡ f
unfolding parse_primary_fields_internal Carries
fields_lem t raw [] f v long area = sym v
fields_lem t raw (x ∷ d) f v long area =
    let whole : ltb (length raw) (6 + length (x ∷ d)) ≡ false = ground arith in
    let filled : (length (x ∷ d) == 0) ≡ false = ground arith in
    rw (whole, area, filled) (parse-Says t (x ∷ d) f v)

-- A block whose header is read, opened.
opened :
    (fuel c t p : ℕ) (raw area : List ℕ)
    → 4 ≤ length raw
    → word16 raw 0 ≡ c
    → word16 raw 2 ≡ t
    → primary_length_of raw ≡ p
    → nested_area raw c p ≡ area
    → t ≢ unknown_type
    → shape (parse_block (suc fuel) raw)
      ≡ info_tree t
          (take p (drop 6 raw))
          (parse_primary_fields_internal t p raw)
          (shapes (parse_nested fuel area))
unfolding shape parse_block
opened fuel c t p raw area long ec et ep ea known =
    let short : ltb (length raw) 4 ≡ false = ground arith in
    let real : (word16 raw 2 == unknown_type) ≡ false = ground (arith, et, known) in
    rw (short, real, ec, et, ep, ea) refl

mutual
  unfolding print IsPrintable shape parse_block

  shape_parse :
      (t : InfoTree) (fuel : ℕ)
      → IsPrintable t
      → length (print t) < fuel
      → shape (parse_block fuel (print t)) ≡ t
  shape_parse (info_tree type primary fields children) zero v h = absurd (omega arith)
  shape_parse (info_tree type primary fields children) (suc fuel) v h =
      let (size, ec, et, ep, ea, eq) =
        header_lem _ type primary (print_all children) refl v.2 v.0 in
      let found = fields_lem type _ primary fields v.3 (omega (arith, size)) eq in
      opened fuel _ type _ _ _ (omega (arith, size)) ec et ep ea v.1
      ∙ ap₂ (λ d f. info_tree type d f (shapes (parse_nested fuel (print_all children)))) eq found
      ∙ ap (info_tree type primary fields) (shapes_parse children fuel v.4 (omega (arith, size)))

  shapes_parse :
      (ts : InfoTrees) (fuel : ℕ)
      → ArePrintable ts
      → suc (length (print_all ts)) < fuel
      → shapes (parse_nested fuel (print_all ts)) ≡ ts
  shapes_parse no_trees zero v h = absurd (omega arith)
  shapes_parse no_trees (suc fuel) v h = refl
  shapes_parse (one_more t ts) zero v h = absurd (omega arith)
  shapes_parse (one_more t ts) (suc fuel) v h =
      let (size, long) = length-print t v.0 in
      let (claim, front, back, headed, whole) = first_lem t (print_all ts) v.0 in
      rw (headed, whole, front, back)
        (ap₂ one_more
          (shape_parse t fuel v.0 (omega (arith, length-append (print t) (print_all ts))))
          (shapes_parse ts fuel v.1 (omega (arith, length-append (print t) (print_all ts)))))

-- A tree of blocks is printed that fit their 16-bit lengths, have none of them the type of no block, and
-- whose fields are what their primary bytes carry. Constructing an info block from the bytes gives
-- the tree back: every type, all primary fields as they are parsed, and all nested blocks, in their
-- order.
pub parse_print : (t : InfoTree) → IsPrintable t → shape (avc_info_block (print t)) ≡ t
unfolding avc_info_block
parse_print t v = shape_parse t (suc (length (print t))) v (omega arith)
