-- ===== src/InfoBlock/Content.antt =====
-- The bytes of the primary fields, told without the parser: what area carries which fields.
use fire_wire_audio.Prelude.{
  ℕ, zero, suc, ◌+◌, ◌*◌, ◌/◌, ◌%◌, ◌^◌, ◌<◌, ◌≡◌, ◌≢◌, refl, ap, ap₂, ◌∙◌, Bool, true, false, ◌&&◌,
  List, [], ◌∷◌, ◌++◌, ◌⊎◌, inl, inr, arith, leb, ◌==◌, if◌then◌else◌, length, replicate,
}
use fire_wire_audio.InfoBlock.Fields.{
  unknown, unlisted, type_of_code, ClusterSignalInfo, MusicPlugReference, PrimaryFields, not_parsed,
  general_music_status_data, routing_status_data, music_output_plug_status_data,
  source_plug_status_data, audio_info_data, midi_info_data, smpte_time_code_info_data,
  sample_count_info_data, audio_sync_info_data, subunit_plug_info_data, cluster_info_data,
  music_plug_info_data, name_info_data, raw_text_data, word16, signals, trim_nulls, is_empty,
  parse_cluster_info, parse_music_plug_info, parse_name, parse_by_type,
}

-- A 16-bit field, its high byte first, before the rest.
abbrev pub word_bytes : ℕ → List ℕ → List ℕ
word_bytes w rest = w / 2 ^ 8 ∷ w % 2 ^ 8 ∷ rest

abbrev pub signal_bytes : List ClusterSignalInfo → List ℕ
signal_bytes [] = []
signal_bytes (s ∷ ss) =
    word_bytes s.music_plug_id (s.stream_position ∷ s.stream_location ∷ signal_bytes ss)

abbrev pub reference_bytes : MusicPlugReference → List ℕ → List ℕ
reference_bytes r rest =
    r.plug_function_type ∷ r.plug_id ∷ r.plug_function_block_id ∷ r.stream_position
    ∷ r.stream_location ∷ rest

-- The plug ids have 16 bits.
abbrev pub AreSignals : List ClusterSignalInfo → Type 0
AreSignals [] = Unit
AreSignals (s ∷ ss) = (s.music_plug_id < 2 ^ 16) × AreSignals ss

-- The text does not end in a zero.
abbrev pub EndsLoud : List ℕ → Type 0
EndsLoud [] = Unit
EndsLoud (x ∷ []) = x ≢ 0
EndsLoud (x ∷ y ∷ xs) = EndsLoud (y ∷ xs)

-- A type that stands for no fields.
abbrev pub OtherType : ℕ → Type 0
OtherType t = (t < 0x000A) ⊎ (((0x000B < t) × (t < 0x8100)) ⊎ (0x810B < t))

-- A block of type `t` whose primary field area `d` has some bytes says these fields.
unfoldable pub Says : ℕ → List ℕ → PrimaryFields → Type 0
Says t d not_parsed = OtherType t
Says t d (general_music_status_data a b c) =
    (t ≡ 0x8100) × (c < 2 ^ 32) × (d ≡ a ∷ b ∷ word_bytes (c / 2 ^ 16) (word_bytes (c % 2 ^ 16) []))
Says t d (routing_status_data a b c) = (t ≡ 0x8108) × (c < 2 ^ 16) × (d ≡ a ∷ b ∷ word_bytes c [])
Says t d (music_output_plug_status_data a) = (t ≡ 0x8101) × (d ≡ a ∷ [])
Says t d (source_plug_status_data a) = (t ≡ 0x8102) × (d ≡ a ∷ [])
Says t d (audio_info_data a) = (t ≡ 0x8103) × (d ≡ a ∷ [])
Says t d (midi_info_data a) = (t ≡ 0x8104) × (d ≡ a ∷ [])
Says t d (smpte_time_code_info_data a) = (t ≡ 0x8105) × (d ≡ a ∷ [])
Says t d (sample_count_info_data a) = (t ≡ 0x8106) × (d ≡ a ∷ [])
Says t d (audio_sync_info_data a) = (t ≡ 0x8107) × (d ≡ a ∷ [])
Says t d (subunit_plug_info_data a b c e f) =
    (t ≡ 0x8109)
    × (b < 2 ^ 16)
    × (e < 2 ^ 16)
    × (f < 2 ^ 16)
    × (d ≡ a ∷ word_bytes b (c ∷ word_bytes e (word_bytes f [])))
Says t d (cluster_info_data a b n ss) =
    (t ≡ 0x810A) × (n ≡ length ss) × AreSignals ss × (d ≡ a ∷ b ∷ n ∷ signal_bytes ss)
Says t d (music_plug_info_data a b c r q) =
    (t ≡ 0x810B)
    × (b < 2 ^ 16)
    × (d ≡ a ∷ word_bytes b (c ∷ reference_bytes r (reference_bytes q [])))
Says t d (name_info_data r a b) =
    (t ≡ 0x000B)
    × (((r ≡ 0) × (b < 2 ^ 16) × (d ≡ 0 ∷ a ∷ word_bytes b []))
        ⊎ ((r ≢ 0) × (a ≡ 0) × (b ≡ 0) × (d ≡ r ∷ [])))
Says t d (raw_text_data xs) = (t ≡ 0x000A) × EndsLoud xs × ((k : ℕ) × (d ≡ xs ++ replicate k 0))

-- The fields of an area: an empty one has none.
unfoldable pub Carries : ℕ → List ℕ → PrimaryFields → Type 0
unfolding Says
Carries t [] f = f ≡ not_parsed
Carries t (x ∷ d) f = Says t (x ∷ d) f

word_lem : (w : ℕ) → w < 2 ^ 16 → w / 2 ^ 8 * 2 ^ 8 + w % 2 ^ 8 ≡ w
word_lem w h = omega arith

quad_lem :
    (c : ℕ)
    → c < 2 ^ 32
    → (c / 2 ^ 16 / 2 ^ 8 * 2 ^ 8 + c / 2 ^ 16 % 2 ^ 8) * 2 ^ 16
        + (c % 2 ^ 16 / 2 ^ 8 * 2 ^ 8 + c % 2 ^ 16 % 2 ^ 8)
      ≡ c
quad_lem c h = omega arith

signals_lem :
    (ss : List ClusterSignalInfo) → AreSignals ss → signals (length ss) (signal_bytes ss) ≡ ss
unfolding signals word16
signals_lem [] v = refl
signals_lem (s ∷ ss) v =
    ap₂
      (λ w rest.
        record {
          music_plug_id = w;
          stream_position = s.stream_position;
          stream_location = s.stream_location;
        }
        ∷ rest)
      (word_lem s.music_plug_id v.0) (signals_lem ss v.1)

length-signal_bytes : (ss : List ClusterSignalInfo) → length (signal_bytes ss) ≡ length ss * 4
length-signal_bytes [] = refl
length-signal_bytes (s ∷ ss) = omega (arith, length-signal_bytes ss)

trim_zeros : (k : ℕ) → trim_nulls (replicate k 0) ≡ []
unfolding trim_nulls
trim_zeros zero = refl
trim_zeros (suc k) = rw (trim_zeros k) refl

trim_lem : (xs : List ℕ) (k : ℕ) → EndsLoud xs → trim_nulls (xs ++ replicate k 0) ≡ xs
unfolding trim_nulls
trim_lem [] k v = trim_zeros k
trim_lem (x ∷ []) k v = let loud : (x == 0) ≡ false = ground arith in rw (trim_zeros k, loud) refl
trim_lem (x ∷ y ∷ xs) k v =
    let rest : trim_nulls (y ∷ (xs ++ replicate k 0)) ≡ y ∷ xs = trim_lem (y ∷ xs) k v in
    ap (λ zs. if (x == 0) && is_empty zs then [] else x ∷ zs) rest ∙ ground arith

other_type : (t : ℕ) → OtherType t → type_of_code t ≡ (if t == 0xFFFF then unknown else unlisted t)
unfolding type_of_code
other_type t (inl low) = ground arith
other_type t (inr (inl between)) = ground arith
other_type t (inr (inr high)) = ground arith

other_lem :
    (t : ℕ) (d : List ℕ) (b : Bool)
    → parse_by_type (if b then unknown else unlisted t) d ≡ not_parsed
unfolding parse_by_type
other_lem t d true = refl
other_lem t d false = refl

module _ (t : ℕ) (d : List ℕ) where
  -- The parser finds what an area says.
  pub parse-Says : (f : PrimaryFields) → Says t d f → parse_by_type (type_of_code t) d ≡ f
  unfolding Says parse_by_type type_of_code word16 parse_cluster_info parse_music_plug_info
      parse_name
  parse-Says not_parsed other =
      ap (λ type. parse_by_type type d) (other_type t other) ∙ other_lem t d (t == 0xFFFF)
  parse-Says (general_music_status_data a b c) (et, h, ed) =
      rw (et, ed) (ap (general_music_status_data a b) (quad_lem c h))
  parse-Says (routing_status_data a b c) (et, h, ed) =
      rw (et, ed) (ap (routing_status_data a b) (word_lem c h))
  parse-Says (music_output_plug_status_data a) (et, ed) = rw (et, ed) refl
  parse-Says (source_plug_status_data a) (et, ed) = rw (et, ed) refl
  parse-Says (audio_info_data a) (et, ed) = rw (et, ed) refl
  parse-Says (midi_info_data a) (et, ed) = rw (et, ed) refl
  parse-Says (smpte_time_code_info_data a) (et, ed) = rw (et, ed) refl
  parse-Says (sample_count_info_data a) (et, ed) = rw (et, ed) refl
  parse-Says (audio_sync_info_data a) (et, ed) = rw (et, ed) refl
  parse-Says (subunit_plug_info_data a b c e f) (et, hb, he, hf, ed) =
      rw (et, ed)
        (ap
            (λ x.
              subunit_plug_info_data a x c (e / 2 ^ 8 * 2 ^ 8 + e % 2 ^ 8)
                (f / 2 ^ 8 * 2 ^ 8 + f % 2 ^ 8))
            (word_lem b hb)
          ∙ ap₂ (λ x y. subunit_plug_info_data a b c x y) (word_lem e he) (word_lem f hf))
  parse-Says (cluster_info_data a b n ss) (et, en, v, ed) =
      let fits : leb (3 + n * 4) (length (a ∷ b ∷ n ∷ signal_bytes ss)) ≡ true =
        ground (arith, length-signal_bytes ss) in
      let all : signals n (signal_bytes ss) ≡ ss =
        ap (λ k. signals k (signal_bytes ss)) en ∙ signals_lem ss v in
      let long : leb 3 (length (a ∷ b ∷ n ∷ signal_bytes ss)) ≡ true = ground arith in
      rw (et, ed, fits, long) (ap (cluster_info_data a b n) all)
  parse-Says (music_plug_info_data a b c r q) (et, h, ed) =
      rw (et, ed) (ap (λ x. music_plug_info_data a x c r q) (word_lem b h))
  parse-Says (name_info_data r a b) (et, inl (er, h, ed)) =
      rw (et, ed, er) (ap (name_info_data 0 a) (word_lem b h))
  parse-Says (name_info_data r a b) (et, inr (nr, ea, eb, ed)) =
      let loud : (r == 0) ≡ false = ground arith in rw (et, ed, ea, eb, loud) refl
  parse-Says (raw_text_data xs) (et, loud, (k, ed)) =
      rw (et, ed) (ap raw_text_data (trim_lem xs k loud))
