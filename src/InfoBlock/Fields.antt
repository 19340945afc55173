-- ===== src/InfoBlock/Fields.antt =====
-- src/FWA/AVCInfoBlock.cpp, parsePrimaryFieldsInternal, with the structures of
-- include/FWA/AVCInfoBlock.hpp: the primary fields of an info block. The optional members, of which
-- at most one is set, are the constructors of one type.
use fire_wire_audio.Prelude.{
  ℕ, zero, suc, ◌+◌, ◌*◌, ◌^◌, Bool, true, false, ◌&&◌, List, [], ◌∷◌, ltb, leb, ◌==◌,
  if◌then◌else◌, length, get_or, drop, take,
}

pub data InfoBlockType : Type 0 where
  raw_text name general_music_status music_output_plug_status source_plug_status : InfoBlockType
  audio_info midi_info smpte_time_code_info sample_count_info audio_sync_info : InfoBlockType
  routing_status subunit_plug_info cluster_info music_plug_info unknown : InfoBlockType
  unlisted : ℕ → InfoBlockType

unfoldable pub code : InfoBlockType → ℕ
code raw_text = 0x000A
code name = 0x000B
code general_music_status = 0x8100
code music_output_plug_status = 0x8101
code source_plug_status = 0x8102
code audio_info = 0x8103
code midi_info = 0x8104
code smpte_time_code_info = 0x8105
code sample_count_info = 0x8106
code audio_sync_info = 0x8107
code routing_status = 0x8108
code subunit_plug_info = 0x8109
code cluster_info = 0x810A
code music_plug_info = 0x810B
code unknown = 0xFFFF
code (unlisted c) = c

-- `static_cast` from 16 bits.
unfoldable pub type_of_code : ℕ → InfoBlockType
type_of_code c =
    if c == 0x000A
    then raw_text
    else if c == 0x000B
    then name
    else if c == 0x8100
    then general_music_status
    else if c == 0x8101
    then music_output_plug_status
    else if c == 0x8102
    then source_plug_status
    else if c == 0x8103
    then audio_info
    else if c == 0x8104
    then midi_info
    else if c == 0x8105
    then smpte_time_code_info
    else if c == 0x8106
    then sample_count_info
    else if c == 0x8107
    then audio_sync_info
    else if c == 0x8108
    then routing_status
    else if c == 0x8109
    then subunit_plug_info
    else if c == 0x810A
    then cluster_info
    else if c == 0x810B
    then music_plug_info
    else if c == 0xFFFF
    then unknown
    else unlisted c

pub record ClusterSignalInfo : Type 0 where
  pub music_plug_id : ℕ
  pub stream_position : ℕ
  pub stream_location : ℕ

pub record MusicPlugReference : Type 0 where
  pub plug_function_type : ℕ
  pub plug_id : ℕ
  pub plug_function_block_id : ℕ
  pub stream_position : ℕ
  pub stream_location : ℕ

-- The fields in the order of the source's structures.
pub data PrimaryFields : Type 0 where
  not_parsed : PrimaryFields
  general_music_status_data routing_status_data : ℕ → ℕ → ℕ → PrimaryFields
  music_output_plug_status_data source_plug_status_data audio_info_data : ℕ → PrimaryFields
  midi_info_data smpte_time_code_info_data sample_count_info_data : ℕ → PrimaryFields
  audio_sync_info_data : ℕ → PrimaryFields
  subunit_plug_info_data : ℕ → ℕ → ℕ → ℕ → ℕ → PrimaryFields
  cluster_info_data : ℕ → ℕ → ℕ → List ClusterSignalInfo → PrimaryFields
  music_plug_info_data : ℕ → ℕ → ℕ → MusicPlugReference → MusicPlugReference → PrimaryFields
  name_info_data : ℕ → ℕ → ℕ → PrimaryFields
  raw_text_data : List ℕ → PrimaryFields

-- Byte `i`, and the 16 bits from it on.
abbrev pub byte_at : List ℕ → ℕ → ℕ
byte_at d i = get_or d i 0

unfoldable pub word16 : List ℕ → ℕ → ℕ
word16 d i = byte_at d i * 2 ^ 8 + byte_at d (i + 1)

unfoldable pub signals : ℕ → List ℕ → List ClusterSignalInfo
unfolding word16
signals zero d = []
signals (suc n) d =
    record {
      music_plug_id = word16 d 0;
      stream_position = byte_at d 2;
      stream_location = byte_at d 3;
    }
    ∷ signals n (drop 4 d)

abbrev pub reference_at : List ℕ → ℕ → MusicPlugReference
reference_at d i = record {
  plug_function_type = byte_at d i;
  plug_id = byte_at d (i + 1);
  plug_function_block_id = byte_at d (i + 2);
  stream_position = byte_at d (i + 3);
  stream_location = byte_at d (i + 4);
}

abbrev pub is_empty : List ℕ → Bool
is_empty [] = true
is_empty (x ∷ xs) = false

-- The text without the zeros at its end, which the source pops one by one.
unfoldable pub trim_nulls : List ℕ → List ℕ
trim_nulls [] = []
trim_nulls (x ∷ xs) = let rest = trim_nulls xs in if (x == 0) && is_empty rest then [] else x ∷ rest

abbrev one_byte : (ℕ → PrimaryFields) → List ℕ → PrimaryFields
one_byte make d = if leb 1 (length d) then make (byte_at d 0) else not_parsed

unfoldable pub parse_cluster_info : List ℕ → PrimaryFields
unfolding signals
parse_cluster_info d =
    if leb 3 (length d) && leb (3 + byte_at d 2 * 4) (length d)
    then cluster_info_data (byte_at d 0) (byte_at d 1) (byte_at d 2)
        (signals (byte_at d 2) (drop 3 d))
    else not_parsed

unfoldable pub parse_music_plug_info : List ℕ → PrimaryFields
unfolding word16
parse_music_plug_info d =
    if leb 14 (length d)
    then music_plug_info_data (byte_at d 0) (word16 d 1) (byte_at d 3) (reference_at d 4)
        (reference_at d 9)
    else not_parsed

unfoldable pub parse_name : List ℕ → PrimaryFields
unfolding word16
parse_name d =
    if leb 1 (length d)
    then (if (byte_at d 0 == 0) && leb 4 (length d)
        then name_info_data 0 (byte_at d 1) (word16 d 2)
        else name_info_data (byte_at d 0) 0 0)
    else not_parsed

-- The switch over the type; `d` is the primary field area, as long as the header says.
unfoldable pub parse_by_type : InfoBlockType → List ℕ → PrimaryFields
unfolding word16 trim_nulls parse_cluster_info parse_music_plug_info parse_name
parse_by_type type d = elim type [
  | general_music_status ↦
      if leb 6 (length d)
      then general_music_status_data (byte_at d 0) (byte_at d 1) (word16 d 2 * 2 ^ 16 + word16 d 4)
      else not_parsed
  | music_output_plug_status ↦ one_byte music_output_plug_status_data d
  | source_plug_status ↦ one_byte source_plug_status_data d
  | audio_info ↦ one_byte audio_info_data d
  | midi_info ↦ one_byte midi_info_data d
  | smpte_time_code_info ↦ one_byte smpte_time_code_info_data d
  | sample_count_info ↦ one_byte sample_count_info_data d
  | audio_sync_info ↦ one_byte audio_sync_info_data d
  | routing_status ↦
      if leb 4 (length d)
      then routing_status_data (byte_at d 0) (byte_at d 1) (word16 d 2)
      else not_parsed
  | subunit_plug_info ↦
      if leb 8 (length d)
      then subunit_plug_info_data (byte_at d 0) (word16 d 1) (byte_at d 3) (word16 d 4) (word16 d 6)
      else not_parsed
  | cluster_info ↦ parse_cluster_info d
  | music_plug_info ↦ parse_music_plug_info d
  | name ↦ parse_name d
  | raw_text ↦ raw_text_data (trim_nulls d)
  | _ ↦ not_parsed
]

-- Nothing is parsed when the area is empty or does not lie in the block's data.
unfoldable pub parse_primary_fields_internal : ℕ → ℕ → List ℕ → PrimaryFields
unfolding parse_by_type type_of_code
parse_primary_fields_internal type primary_length raw =
    if (primary_length == 0)
    then not_parsed
    else if ltb (length raw) (6 + primary_length)
    then not_parsed
    else parse_by_type (type_of_code type) (take primary_length (drop 6 raw))
