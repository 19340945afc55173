-- ===== src/StreamFormat.antt =====
-- src/FWA/AudioStreamFormat.cpp and src/FWA/PlugDetailParser.cpp: stream formats, as a program writes
-- them into a block of bytes, as it reads them from a response, and the queries for them. A
-- StreamFormatCode is its byte.
pub mod RoundTrip
pub mod Query
pub mod Listing
mod Tests
use fire_wire_audio.Prelude.{
  ℕ, zero, suc, ◌+◌, ◌-◌, ◌*◌, ◌/◌, ◌%◌, ◌^◌, Bool, true, false, not, ◌&&◌, ◌||◌, Option, none,
  some, List, [], ◌∷◌, ◌++◌, ltb, leb, ◌==◌, if◌then◌else◌, length, get_or, drop,
}
use fire_wire_audio.Prelude.Expected.{
  Expected, value, unexpected, from_io_return, internal_error, underrun, bad_response,
}

pub data FormatType : Type 0 where
  compound_am824 am824 unknown_format : FormatType

pub data SampleRate : Type 0 where
  sr_22050 sr_24000 sr_32000 sr_44100 sr_48000 sr_96000 sr_176400 sr_192000 sr_88200 : SampleRate
  dont_care unknown_rate : SampleRate

pub record ChannelFormatInfo : Type 0 where
  pub channel_count : ℕ
  pub format_code : ℕ

pub record AudioStreamFormat : Type 0 where
  pub format_type : FormatType
  pub sample_rate : SampleRate
  pub sync_source : Bool
  pub channels : List ChannelFormatInfo

abbrev pub mbla : ℕ
mbla = 0x06

unfoldable pub sample_rate_to_byte : SampleRate → ℕ
sample_rate_to_byte sr_22050 = 0x00
sample_rate_to_byte sr_24000 = 0x01
sample_rate_to_byte sr_32000 = 0x02
sample_rate_to_byte sr_44100 = 0x03
sample_rate_to_byte sr_48000 = 0x04
sample_rate_to_byte sr_96000 = 0x05
sample_rate_to_byte sr_176400 = 0x06
sample_rate_to_byte sr_192000 = 0x07
sample_rate_to_byte sr_88200 = 0x0A
sample_rate_to_byte dont_care = 0x0F
sample_rate_to_byte unknown_rate = 0xFF

-- The switch of both formats, which has no case for 0x0F.
unfoldable pub rate_of_byte : ℕ → SampleRate
rate_of_byte b =
    if b == 0x00
    then sr_22050
    else if b == 0x01
    then sr_24000
    else if b == 0x02
    then sr_32000
    else if b == 0x03
    then sr_44100
    else if b == 0x04
    then sr_48000
    else if b == 0x05
    then sr_96000
    else if b == 0x06
    then sr_176400
    else if b == 0x07
    then sr_192000
    else if b == 0x0A
    then sr_88200
    else unknown_rate

abbrev pub field_bytes : List ChannelFormatInfo → List ℕ
field_bytes [] = []
field_bytes (f ∷ fs) = f.channel_count ∷ f.format_code ∷ field_bytes fs

-- A format that cannot be written gives no bytes.
unfoldable pub serialize_compound : AudioStreamFormat → List ℕ
unfolding sample_rate_to_byte
serialize_compound f =
    if (sample_rate_to_byte f.sample_rate == 0xFF) || ltb 255 (length f.channels)
    then []
    else 0x90
      ∷ 0x40
      ∷ sample_rate_to_byte f.sample_rate
      ∷ (if f.sync_source then 0x04 else 0x00)
      ∷ length f.channels
      ∷ field_bytes f.channels

unfoldable pub serialize_simple : AudioStreamFormat → List ℕ
unfolding sample_rate_to_byte
serialize_simple f = elim f.channels [
  | [] ↦ []
  | c ∷ cs ↦
      if (length cs == 0)
        && (c.format_code == mbla)
        && not (sample_rate_to_byte f.sample_rate == 0xFF)
      then 0x90
        ∷ 0x00
        ∷ mbla
        ∷ 0xFF
        ∷ (sample_rate_to_byte f.sample_rate * 2 ^ 4 % 2 ^ 8 + 0x0F)
        ∷ 0xFF
        ∷ []
      else []
]

unfoldable pub serialize_to_bytes : AudioStreamFormat → List ℕ
unfolding serialize_compound serialize_simple
serialize_to_bytes f = elim f.format_type [
  | compound_am824 ↦ serialize_compound f
  | am824 ↦ serialize_simple f
  | unknown_format ↦ []
]

-- `n` fields from the front; there are as many.
unfoldable pub fields_of : ℕ → List ℕ → List ChannelFormatInfo
fields_of zero bytes = []
fields_of (suc n) bytes =
    record { channel_count = get_or bytes 0 0; format_code = get_or bytes 1 0 }
    ∷ fields_of n (drop 2 bytes)

unfoldable pub parse_compound : List ℕ → Expected AudioStreamFormat
unfolding rate_of_byte fields_of
parse_compound fmt =
    if ltb (length fmt) 5
    then unexpected (from_io_return underrun)
    else if ltb (length fmt) (5 + get_or fmt 4 0 * 2)
    then unexpected (from_io_return underrun)
    else value (record {
      format_type = compound_am824;
      sample_rate = rate_of_byte (get_or fmt 2 0);
      sync_source = get_or fmt 3 0 / 2 ^ 2 % 2 == 1;
      channels = fields_of (get_or fmt 4 0) (drop 5 fmt);
    })

abbrev pub single_field : ℕ → List ChannelFormatInfo
single_field c = record { channel_count = 2; format_code = c } ∷ []

unfoldable pub parse_simple : List ℕ → Expected AudioStreamFormat
unfolding rate_of_byte
parse_simple fmt =
    if length fmt == 6
    then value (record {
      format_type = am824;
      sample_rate = rate_of_byte (get_or fmt 4 0 / 2 ^ 4 % 2 ^ 4);
      sync_source = false;
      channels = single_field (get_or fmt 2 0);
    })
    else if length fmt == 3
    then value (record {
      format_type = am824;
      sample_rate = dont_care;
      sync_source = false;
      channels = single_field (get_or fmt 2 0);
    })
    else unexpected (from_io_return bad_response)

-- The block behind the header.
unfoldable pub parse_format_block : List ℕ → Expected AudioStreamFormat
unfolding parse_compound parse_simple
parse_format_block fmt =
    if ltb (length fmt) 2
    then unexpected (from_io_return bad_response)
    else if (get_or fmt 0 0 == 0x90) && (get_or fmt 1 0 == 0x40)
    then parse_compound fmt
    else if (get_or fmt 0 0 == 0x90) && (get_or fmt 1 0 == 0x00)
    then parse_simple fmt
    else unexpected (from_io_return bad_response)

abbrev pub current_query : ℕ
current_query = 0xC0

abbrev pub supported_query : ℕ
supported_query = 0xC1

-- Where the block starts in a response.
unfoldable pub format_start : ℕ → Option ℕ
format_start subfunction =
    if subfunction == current_query
    then some 10
    else if subfunction == supported_query
    then some 11
    else none

unfoldable pub parse_stream_format_response : List ℕ → ℕ → Expected AudioStreamFormat
unfolding format_start parse_format_block
parse_stream_format_response response subfunction = elim (format_start subfunction) [
  | none ↦ unexpected (from_io_return internal_error)
  | some start ↦
      if leb (length response) start
      then unexpected (from_io_return underrun)
      else parse_format_block (drop start response)
]
