-- ===== src/InfoBlock/Print.antt =====
-- Info blocks as they are sent: the tree of types, primary fields and their bytes, and how it is
-- printed.
use fire_wire_audio.Prelude.{
  ℕ, ◌+◌, ◌/◌, ◌%◌, ◌^◌, ◌<◌, ◌≢◌, List, [], ◌∷◌, ◌++◌, length, drop, take,
}
use fire_wire_audio.InfoBlock.{
  AvcInfoBlock, NestedBlocks, info_block, no_blocks, push_block, unknown_type,
}
use fire_wire_audio.InfoBlock.Fields.{PrimaryFields}
use fire_wire_audio.InfoBlock.Content.{Carries}

mutual
  pub data InfoTree : Type 0 where
    info_tree : ℕ → List ℕ → PrimaryFields → InfoTrees → InfoTree

  pub data InfoTrees : Type 0 where
    no_trees : InfoTrees
    one_more : InfoTree → InfoTrees → InfoTrees

-- A header with its three 16-bit fields, before the rest of a block.
unfoldable pub with_header : ℕ → ℕ → ℕ → List ℕ → List ℕ
with_header compound type primary_length rest =
    compound / 2 ^ 8 % 2 ^ 8
    ∷ compound % 2 ^ 8
    ∷ type / 2 ^ 8 % 2 ^ 8
    ∷ type % 2 ^ 8
    ∷ primary_length / 2 ^ 8 % 2 ^ 8
    ∷ primary_length % 2 ^ 8
    ∷ rest

-- The compound length counts what follows it.
unfoldable mutual
  unfolding with_header

  pub print : InfoTree → List ℕ
  print (info_tree type primary fields children) =
      with_header (4 + length primary + length (print_all children)) type (length primary)
        (primary ++ print_all children)

  pub print_all : InfoTrees → List ℕ
  print_all no_trees = []
  print_all (one_more t ts) = print t ++ print_all ts

-- Every block fits its 16-bit lengths, none has the type of no block, and the fields of each are what
-- its primary bytes carry.
unfoldable mutual
  pub IsPrintable : InfoTree → Type 0
  IsPrintable (info_tree type primary fields children) =
      (type < 2 ^ 16)
      × (type ≢ unknown_type)
      × (4 + length primary + length (print_all children) < 2 ^ 16)
      × Carries type primary fields
      × ArePrintable children

  pub ArePrintable : InfoTrees → Type 0
  ArePrintable no_trees = Unit
  ArePrintable (one_more t ts) = IsPrintable t × ArePrintable ts

-- What a parsed block says: its type, the bytes of its primary fields, those fields as they were
-- parsed, and its nested blocks.
unfoldable mutual
  pub shape : AvcInfoBlock → InfoTree
  shape (info_block raw type compound primary_length fields nested) =
      info_tree type (take primary_length (drop 6 raw)) fields (shapes nested)

  pub shapes : NestedBlocks → InfoTrees
  shapes no_blocks = no_trees
  shapes (push_block b bs) = one_more (shape b) (shapes bs)
