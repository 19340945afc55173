-- ===== src/StreamFormat/RoundTrip.antt =====
-- A format that is written is read back.
use fire_wire_audio.Prelude.{
  ℕ, ◌+◌, ◌*◌, ◌/◌, ◌%◌, ◌^◌, ◌≤◌, ◌<◌, ◌≡◌, ◌≢◌, refl, ap, ◌∙◌, Bool, true, false, ◌||◌, some,
  List, [], ◌∷◌, ◌++◌, arith, ltb, leb, ◌==◌, if◌then◌else◌, length, drop-append, length-append,
}
use fire_wire_audio.Prelude.Expected.{value}
use fire_wire_audio.StreamFormat.{
  compound_am824, am824, SampleRate, sr_22050, sr_24000, sr_32000, sr_44100, sr_48000, sr_96000,
  sr_176400, sr_192000, sr_88200, dont_care, unknown_rate, ChannelFormatInfo, AudioStreamFormat,
  mbla, sample_rate_to_byte, rate_of_byte, field_bytes, serialize_compound, serialize_simple,
  serialize_to_bytes, fields_of, parse_compound, single_field, parse_simple, parse_format_block,
  format_start, parse_stream_format_response,
}

-- A rate that has a case when it is read.
unfoldable pub IsListed : SampleRate → Type 0
IsListed r = (r ≢ dont_care) × (r ≢ unknown_rate)

-- Of all rates, the one that does not matter is the only one that a format can be written with and is
-- not read back with: it comes back as unknown.
pub rate_of_byte-sample_rate_to_byte :
    (rate : SampleRate)
    → rate_of_byte (sample_rate_to_byte rate) ≡ elim rate [ dont_care ↦ unknown_rate | r ↦ r ]
unfolding rate_of_byte sample_rate_to_byte
rate_of_byte-sample_rate_to_byte sr_22050 = refl
rate_of_byte-sample_rate_to_byte sr_24000 = refl
rate_of_byte-sample_rate_to_byte sr_32000 = refl
rate_of_byte-sample_rate_to_byte sr_44100 = refl
rate_of_byte-sample_rate_to_byte sr_48000 = refl
rate_of_byte-sample_rate_to_byte sr_96000 = refl
rate_of_byte-sample_rate_to_byte sr_176400 = refl
rate_of_byte-sample_rate_to_byte sr_192000 = refl
rate_of_byte-sample_rate_to_byte sr_88200 = refl
rate_of_byte-sample_rate_to_byte dont_care = refl
rate_of_byte-sample_rate_to_byte unknown_rate = refl

rate_back : (r : SampleRate) → IsListed r → rate_of_byte (sample_rate_to_byte r) ≡ r
unfolding IsListed
rate_back dont_care v = absurd (v.0 refl)
rate_back sr_22050 v = rate_of_byte-sample_rate_to_byte sr_22050
rate_back sr_24000 v = rate_of_byte-sample_rate_to_byte sr_24000
rate_back sr_32000 v = rate_of_byte-sample_rate_to_byte sr_32000
rate_back sr_44100 v = rate_of_byte-sample_rate_to_byte sr_44100
rate_back sr_48000 v = rate_of_byte-sample_rate_to_byte sr_48000
rate_back sr_96000 v = rate_of_byte-sample_rate_to_byte sr_96000
rate_back sr_176400 v = rate_of_byte-sample_rate_to_byte sr_176400
rate_back sr_192000 v = rate_of_byte-sample_rate_to_byte sr_192000
rate_back sr_88200 v = rate_of_byte-sample_rate_to_byte sr_88200
rate_back unknown_rate v = rate_of_byte-sample_rate_to_byte unknown_rate

rate_small : (r : SampleRate) → IsListed r → sample_rate_to_byte r ≤ 10
unfolding IsListed sample_rate_to_byte
rate_small sr_22050 v = omega arith
rate_small sr_24000 v = omega arith
rate_small sr_32000 v = omega arith
rate_small sr_44100 v = omega arith
rate_small sr_48000 v = omega arith
rate_small sr_96000 v = omega arith
rate_small sr_176400 v = omega arith
rate_small sr_192000 v = omega arith
rate_small sr_88200 v = omega arith
rate_small dont_care v = absurd (v.0 refl)
rate_small unknown_rate v = absurd (v.1 refl)

fields_back : (fs : List ChannelFormatInfo) → fields_of (length fs) (field_bytes fs) ≡ fs
unfolding fields_of
fields_back [] = refl
fields_back (f ∷ fs) = ap (λ xs. f ∷ xs) (fields_back fs)

length-field_bytes : (fs : List ChannelFormatInfo) → length (field_bytes fs) ≡ length fs * 2
length-field_bytes [] = omega arith
length-field_bytes (f ∷ fs) = omega (arith, length-field_bytes fs)

-- A compound format and a single field, with their rates.
abbrev pub compound_of : SampleRate → Bool → List ChannelFormatInfo → AudioStreamFormat
compound_of rate sync fs = record {
  format_type = compound_am824;
  sample_rate = rate;
  sync_source = sync;
  channels = fs;
}

abbrev pub single_of : SampleRate → AudioStreamFormat
single_of rate = record {
  format_type = am824;
  sample_rate = rate;
  sync_source = false;
  channels = single_field mbla;
}

abbrev compound_bytes : SampleRate → Bool → List ChannelFormatInfo → List ℕ
compound_bytes rate sync fs =
    0x90
    ∷ 0x40
    ∷ sample_rate_to_byte rate
    ∷ (if sync then 0x04 else 0x00)
    ∷ length fs
    ∷ field_bytes fs

compound_written :
    (rate : SampleRate) (sync : Bool) (fs : List ChannelFormatInfo)
    → IsListed rate
    → length fs ≤ 255
    → serialize_compound (compound_of rate sync fs) ≡ compound_bytes rate sync fs
unfolding serialize_compound
compound_written rate sync fs v few =
    let writable : ((sample_rate_to_byte rate == 0xFF) || ltb 255 (length fs)) ≡ false =
      ground (arith, rate_small rate v) in
    rw (serialize_compound, writable) refl

sync_back : (sync : Bool) → ((if sync then 0x04 else 0x00) / 2 ^ 2 % 2 == 1) ≡ sync
sync_back true = refl
sync_back false = refl

compound_read :
    (rate : SampleRate) (sync : Bool) (fs : List ChannelFormatInfo)
    → IsListed rate
    → parse_format_block (compound_bytes rate sync fs) ≡ value (compound_of rate sync fs)
unfolding parse_format_block parse_compound
compound_read rate sync fs v =
    let long : ltb (length (compound_bytes rate sync fs)) 2 ≡ false = ground arith in
    let header : ltb (length (compound_bytes rate sync fs)) 5 ≡ false = ground arith in
    let whole : ltb (length (compound_bytes rate sync fs)) (5 + length fs * 2) ≡ false =
      ground (arith, length-field_bytes fs) in
    rw (parse_format_block, long, parse_compound, header, whole)
      (ap
          (λ r. value (
            compound_of r ((if sync then 0x04 else 0x00) / 2 ^ 2 % 2 == 1)
              (fields_of (length fs) (field_bytes fs))))
          (rate_back rate v)
        ∙ ap (λ b. value (compound_of rate b (fields_of (length fs) (field_bytes fs))))
            (sync_back sync)
        ∙ ap (λ cs. value (compound_of rate sync cs)) (fields_back fs))

abbrev single_bytes : SampleRate → List ℕ
single_bytes rate =
    0x90 ∷ 0x00 ∷ mbla ∷ 0xFF ∷ (sample_rate_to_byte rate * 2 ^ 4 % 2 ^ 8 + 0x0F) ∷ 0xFF ∷ []

single_written :
    (rate : SampleRate) → IsListed rate → serialize_simple (single_of rate) ≡ single_bytes rate
unfolding serialize_simple
single_written rate v =
    let writable : (sample_rate_to_byte rate == 0xFF) ≡ false = ground (arith, rate_small rate v) in
    rw (serialize_simple, writable) refl

single_read :
    (rate : SampleRate)
    → IsListed rate
    → parse_format_block (single_bytes rate) ≡ value (single_of rate)
unfolding parse_format_block parse_simple
single_read rate v =
    let nibble : (sample_rate_to_byte rate * 2 ^ 4 % 2 ^ 8 + 0x0F) / 2 ^ 4 % 2 ^ 4
        ≡ sample_rate_to_byte rate =
      omega (arith, rate_small rate v) in
    ap (λ r. value (single_of r)) (ap rate_of_byte nibble ∙ rate_back rate v)

-- A response with a header of the right length for its query.
response_read :
    (header block : List ℕ) (subfunction : ℕ) (f : AudioStreamFormat)
    → format_start subfunction ≡ some (length header)
    → parse_format_block block ≡ value f
    → 0 < length block
    → parse_stream_format_response (header ++ block) subfunction ≡ value f
unfolding parse_stream_format_response
response_read header block subfunction f start read some_block =
    let long : leb (length (header ++ block)) (length header) ≡ false =
      ground (arith, length-append header block) in
    rw (parse_stream_format_response, start, long)
      (ap parse_format_block (drop-append header block) ∙ read)

-- A format that is written and comes back in a response, behind the header of either query, is read as
-- it was: a compound format of at most 255 fields, or a single field of two MBLA channels, each with
-- a rate that is neither unknown nor the one that does not matter.
pub serialize_parse :
    (rate : SampleRate) (sync : Bool) (fs : List ChannelFormatInfo) (header : List ℕ)
    (subfunction : ℕ)
    → IsListed rate
    → length fs ≤ 255
    → format_start subfunction ≡ some (length header)
    → (parse_stream_format_response
          (header ++ serialize_to_bytes (compound_of rate sync fs))
          subfunction
        ≡ value (compound_of rate sync fs))
      × (parse_stream_format_response (header ++ serialize_to_bytes (single_of rate)) subfunction
          ≡ value (single_of rate))
unfolding serialize_to_bytes
serialize_parse rate sync fs header subfunction v few start = (
  rw (compound_written rate sync fs v few) (
      response_read header (compound_bytes rate sync fs) subfunction (compound_of rate sync fs)
        start (compound_read rate sync fs v) (omega arith)),
  rw (single_written rate v) (
      response_read header (single_bytes rate) subfunction (single_of rate) start
        (single_read rate v) (omega arith)),
)
