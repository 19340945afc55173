-- ===== src/StreamFormat/Tests.antt =====
-- Formats as bytes and as answers, and the theorems applied.
use fire_wire_audio.Prelude.{◌≡◌, refl, ap, ℕ, true, some, List, [], ◌∷◌, ◌++◌, arith, get_or, drop}
use fire_wire_audio.Prelude.Expected.{value}
use fire_wire_audio.Access.{Response}
use fire_wire_audio.StreamFormat.{
  AudioStreamFormat, ChannelFormatInfo, SampleRate, supported_query, sr_48000, serialize_to_bytes,
  parse_stream_format_response, format_start, current_query,
}
use fire_wire_audio.StreamFormat.RoundTrip.{IsListed, compound_of, single_of, serialize_parse}
use fire_wire_audio.StreamFormat.Query.{Plug, input}
use fire_wire_audio.StreamFormat.Listing.{listed}

abbrev two_fields : List ChannelFormatInfo
two_fields =
    record { channel_count = 2; format_code = 6 }
    ∷ record { channel_count = 1; format_code = 13 }
    ∷ []

abbrev ten_zeros : List ℕ
ten_zeros = 0 ∷ 0 ∷ 0 ∷ 0 ∷ 0 ∷ 0 ∷ 0 ∷ 0 ∷ 0 ∷ 0 ∷ []

-- One rate told from the others.
abbrev is_48000 : SampleRate → ℕ
is_48000 r = elim r [ sr_48000 ↦ 1 | _ ↦ 0 ]

sr_48000-IsListed : IsListed sr_48000
unfolding IsListed
sr_48000-IsListed = ((λ e. omega (arith, ap is_48000 e)), (λ e. omega (arith, ap is_48000 e)))

starts : (format_start current_query ≡ some 10) × (format_start supported_query ≡ some 11)
unfolding format_start
starts = (refl, refl)

serialize_parse_example :
    (parse_stream_format_response
        (ten_zeros ++ serialize_to_bytes (compound_of sr_48000 true two_fields))
        current_query
      ≡ value (compound_of sr_48000 true two_fields))
    × (parse_stream_format_response
          (ten_zeros ++ serialize_to_bytes (single_of sr_48000))
          current_query
        ≡ value (single_of sr_48000))
serialize_parse_example =
    serialize_parse sr_48000 true two_fields ten_zeros current_query sr_48000-IsListed (omega arith)
      starts.0

abbrev music_plug : Plug
music_plug = record { subunit_addr = 0x60; plug_num = 3; direction = input }

abbrev its_formats : List AudioStreamFormat
its_formats = compound_of sr_48000 true two_fields ∷ single_of sr_48000 ∷ []

-- A plug that finds the index behind its operands.
abbrev plug_of_two : List ℕ → Unit {0} → Response × Unit {0}
plug_of_two command device = (value (listed (drop (get_or command 9 0) its_formats)), device)
