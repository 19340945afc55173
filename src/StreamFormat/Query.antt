-- ===== src/StreamFormat/Query.antt =====
-- src/FWA/PlugDetailParser.cpp, buildStreamFormatCommandBase, queryPlugStreamFormat and
-- querySupportedPlugStreamFormats. The transport is a parameter, as in Access. A response without a
-- byte, whose status the source reads out of bounds, has the status 0xFF here.
use fire_wire_audio.Prelude.{
  ℕ, zero, suc, ◌+◌, ◌-◌, Bool, true, false, not, ◌&&◌, ◌||◌, List, [], ◌∷◌, ◌++◌, ltb, ◌==◌,
  if◌then◌else◌, length, get_or, replicate,
}
use fire_wire_audio.Prelude.Expected.{Expected, value, unexpected, from_io_return, general_error}
use fire_wire_audio.Access.{
  Response, status_inquiry_command, implemented_status, accepted_status, not_implemented_status,
}
use fire_wire_audio.StreamFormat.{
  AudioStreamFormat, parse_stream_format_response, current_query, supported_query,
}

pub data PlugDirection : Type 0 where
  input output : PlugDirection

pub record Plug : Type 0 where
  pub subunit_addr : ℕ
  pub plug_num : ℕ
  pub direction : PlugDirection

abbrev pub unit_address : ℕ
unit_address = 0xFF

abbrev pub direction_byte : PlugDirection → ℕ
direction_byte input = 0x00
direction_byte output = 0x01

-- The operands that name the plug.
unfoldable pub plug_operands : Plug → List ℕ
plug_operands p =
    let kind = if ltb p.plug_num 0x80 then 0x00 else 0x01 in
    if p.subunit_addr == unit_address
    then direction_byte p.direction ∷ kind ∷ kind ∷ p.plug_num ∷ 0xFF ∷ []
    else direction_byte p.direction ∷ 0x01 ∷ p.plug_num ∷ 0xFF ∷ 0xFF ∷ []

-- The place in the list of formats, for the query of all.
unfoldable pub list_operands : Plug → ℕ → ℕ → List ℕ
list_operands p subfunction index =
    if (subfunction == supported_query)
    then (if p.subunit_addr == unit_address then 0xFF ∷ index ∷ [] else index ∷ [])
    else []

unfoldable pub stream_format_command : ℕ → Plug → ℕ → ℕ → List ℕ
unfolding plug_operands list_operands
stream_format_command opcode p subfunction index =
    let command =
      (status_inquiry_command ∷ p.subunit_addr ∷ opcode ∷ subfunction ∷ [])
      ++ plug_operands p
      ++ list_operands p subfunction index in
    command ++ replicate ((if subfunction == supported_query then 12 else 11) - length command) 0xFF

abbrev pub opcode_primary : ℕ
opcode_primary = 0xBF

abbrev pub opcode_alternate : ℕ
opcode_alternate = 0x2F

abbrev pub status_of : List ℕ → ℕ
status_of response = get_or response 0 0xFF

abbrev pub not_implemented : Response → Bool
not_implemented (unexpected e) = false
not_implemented (value []) = false
not_implemented (value (status ∷ rest)) = status == not_implemented_status

abbrev pub is_taken : List ℕ → Bool
is_taken response =
    (status_of response == implemented_status) || (status_of response == accepted_status)

-- The response, the opcode from then on, whether the other opcode was tried, and the device.
abbrev pub Asked : Type 0 → Type 0
Asked D = Response × ℕ × Bool × D

-- What follows a response of the loop: the end, or the next index.
unfoldable pub take_format :
    {D : Type 0}
    → List AudioStreamFormat
    → (ℕ → Bool → List AudioStreamFormat → D → List AudioStreamFormat × D)
    → Asked D
    → List AudioStreamFormat × D
take_format found again asked =
    let (reply, opcode, tried, device) = asked in
    elim reply [
      | unexpected e ↦ (found, device)
      | value response ↦ elim (is_taken response) [
        | false ↦ (found, device)
        | true ↦ elim (parse_stream_format_response response supported_query) [
          | unexpected e ↦ (found, device)
          | value f ↦ again opcode tried (found ++ (f ∷ [])) device
        ]
      ]
    ]

module _ {D : Type 0} (send : List ℕ → D → Response × D) where
  -- The other opcode is tried once when the first is not implemented.
  unfoldable pub fall_back : (ℕ → List ℕ) → ℕ → Bool → Response × D → Asked D
  fall_back command opcode tried answer =
      let (reply, device) = answer in
      elim (not_implemented reply && (opcode == opcode_primary) && not tried) [
        | true ↦
            let (reply', device') = send (command opcode_alternate) device in
            (reply', opcode_alternate, true, device')
        | false ↦ (reply, opcode, tried, device)
      ]

  unfoldable pub query_plug_stream_format : ℕ → Plug → D → Expected AudioStreamFormat × ℕ × D
  unfolding fall_back stream_format_command
  query_plug_stream_format opcode p device =
      let command : ℕ → List ℕ = λ o. stream_format_command o p current_query 0xFF in
      let (reply, opcode', tried, device') =
        fall_back command opcode false (send (command opcode) device) in
      elim reply [
        | unexpected e ↦ (unexpected e, opcode', device')
        | value response ↦
            if is_taken response
            then (parse_stream_format_response response current_query, opcode', device')
            else (unexpected (from_io_return general_error), opcode', device')
      ]

  unfoldable pub supported_loop :
      Plug → ℕ → ℕ → ℕ → Bool → List AudioStreamFormat → D → List AudioStreamFormat × D
  unfolding fall_back take_format stream_format_command
  supported_loop p zero index opcode tried found device = (found, device)
  supported_loop p (suc left) index opcode tried found device =
      let command : ℕ → List ℕ = λ o. stream_format_command o p supported_query index in
      take_format found (supported_loop p left (index + 1))
        (fall_back command opcode tried (send (command opcode) device))

  -- The indices from 0 to MAX_FORMAT_INDEX; the opcode is the primary one again afterwards.
  unfoldable pub query_supported_plug_stream_formats : ℕ → Plug → D → List AudioStreamFormat × ℕ × D
  unfolding supported_loop
  query_supported_plug_stream_formats opcode p device =
      let (found, device') = supported_loop p 17 0 opcode false [] device in
      (found, opcode_primary, device')
