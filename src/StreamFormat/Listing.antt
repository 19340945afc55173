-- ===== src/StreamFormat/Listing.antt =====
-- The formats that a plug lists are found.
use fire_wire_audio.Prelude.{ℕ, ◌≡◌, List, [], ◌∷◌, ◌++◌, drop}
use fire_wire_audio.Prelude.Expected.{value}
use fire_wire_audio.Access.{Response, rejected_status, implemented_status}
use fire_wire_audio.StreamFormat.{
  AudioStreamFormat, serialize_to_bytes, parse_stream_format_response, supported_query,
}
use fire_wire_audio.StreamFormat.Query.{Plug, opcode_primary, stream_format_command}

-- The response for the first of the formats, or that there is none.
abbrev pub listed : List AudioStreamFormat → List ℕ
listed [] = rejected_status ∷ []
listed (f ∷ fs) =
    (implemented_status ∷ 0 ∷ 0 ∷ 0 ∷ 0 ∷ 0 ∷ 0 ∷ 0 ∷ 0 ∷ 0 ∷ 0 ∷ []) ++ serialize_to_bytes f

-- The plug answers the query for index `i` with its format at `i`, and stays as it is.
unfoldable pub Lists :
    {D : Type 0} → (List ℕ → D → Response × D) → Plug → List AudioStreamFormat → D → Type 0
Lists send p formats device =
    (i : ℕ)
    → send (stream_format_command opcode_primary p supported_query i) device
      ≡ (value (listed (drop i formats)), device)

-- Every format is read as it was written.
abbrev pub AreReadable : List AudioStreamFormat → Type 0
AreReadable [] = Unit
AreReadable (f ∷ fs) =
    (parse_stream_format_response (listed (f ∷ [])) supported_query ≡ value f) × AreReadable fs
