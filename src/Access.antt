-- ===== src/Access.antt =====
-- src/FWA/DescriptorAccessor.cpp: the commands on descriptors and info blocks, and what their responses
-- mean. The transport is a parameter, `send`: it takes a command and the state of the device, which
-- is any type, and gives the response and the device's next state.
pub mod Commands
pub mod Serve
pub mod Whole
pub mod Writes
mod Tests
use fire_wire_audio.Prelude.{
  ℕ, zero, suc, ◌+◌, ◌-◌, ◌*◌, ◌/◌, ◌%◌, ◌^◌, min, Bool, true, false, not, ◌&&◌, ◌||◌, List, [],
  ◌∷◌, ◌++◌, ltb, leb, ◌==◌, if◌then◌else◌, length, get_or, drop, take,
}
use fire_wire_audio.Prelude.Expected.{
  Expected, value, unexpected, from_io_return, timeout, bad_response, not_permitted, unsupported,
}

-- The codes of the AV/C standard that IOKit names.
abbrev pub control_command : ℕ
control_command = 0x00

abbrev pub status_inquiry_command : ℕ
status_inquiry_command = 0x01

abbrev pub not_implemented_status : ℕ
not_implemented_status = 0x08

abbrev pub accepted_status : ℕ
accepted_status = 0x09

abbrev pub rejected_status : ℕ
rejected_status = 0x0A

abbrev pub implemented_status : ℕ
implemented_status = 0x0C

abbrev pub interim_status : ℕ
interim_status = 0x0F

abbrev pub Response : Type 0
Response = Expected (List ℕ)

-- The response, when its first byte says that the command was taken.
unfoldable pub check_standard_response : Response → Response
check_standard_response (unexpected e) = unexpected e
check_standard_response (value []) = unexpected (from_io_return bad_response)
check_standard_response (value (status ∷ rest)) =
    if (status == accepted_status) || (status == implemented_status) || (status == interim_status)
    then value (status ∷ rest)
    else if status == rejected_status
    then unexpected (from_io_return not_permitted)
    else if status == not_implemented_status
    then unexpected (from_io_return unsupported)
    else unexpected (from_io_return bad_response)

-- checkWriteDescriptorResponseSubfunction and checkWriteInfoBlockResponseSubfunction, which are alike.
unfoldable pub check_write_response_subfunction : List ℕ → Expected (Unit {0})
check_write_response_subfunction response =
    let variant = get_or response 1 0 / 2 ^ 4 in
    if leb (length response) 1
    then unexpected (from_io_return bad_response)
    else if (variant == 0) || (variant == 1) || (variant == 3) || (variant == 4)
    then value tt
    else if variant == 2
    then unexpected (from_io_return not_permitted)
    else unexpected (from_io_return bad_response)

abbrev pub max_read_chunk_size : ℕ
max_read_chunk_size = 128

abbrev pub max_read_attempts : ℕ
max_read_attempts = 1024

-- `prefix` is the kind of the command, its target, its opcode and the specifier or the path.
unfoldable pub read_command : List ℕ → ℕ → ℕ → List ℕ
read_command prefix chunk offset =
    prefix
    ++ (0xFF
        ∷ 0x00
        ∷ chunk / 2 ^ 8 % 2 ^ 8
        ∷ chunk % 2 ^ 8
        ∷ offset / 2 ^ 8 % 2 ^ 8
        ∷ offset % 2 ^ 8
        ∷ [])

-- What a response brings, and whether it is the last.
unfoldable pub chunk_of : List ℕ → Expected (List ℕ × Bool)
chunk_of response =
    let result = get_or response 4 0 in
    let reported = get_or response 6 0 * 2 ^ 8 + get_or response 7 0 in
    let taken = min reported (length response - 10) in
    let bytes = take taken (drop 10 response) in
    if ltb (length response) 10
    then unexpected (from_io_return bad_response)
    else if (result == 0x10) || (result == 0x12)
    then value (bytes, true)
    else if result == 0x11
    then value (bytes, taken == 0)
    else unexpected (from_io_return bad_response)

-- What follows a response: the end, or another round.
unfoldable pub take_response :
    {D : Type 0}
    → ℕ
    → ℕ
    → ℕ
    → List ℕ
    → (ℕ → ℕ → List ℕ → D → Response × D)
    → Response × D
    → Response × D
unfolding check_standard_response chunk_of
take_response wanted offset total read again answer =
    let (reply, device) = answer in
    elim (check_standard_response reply) [
      | unexpected e ↦ (unexpected e, device)
      | value response ↦ elim (chunk_of response) [
        | unexpected e ↦ (unexpected e, device)
        | value part ↦
            let (bytes, complete) = part in
            let total' = (total + length bytes) % 2 ^ 16 in
            elim (complete || (not (wanted == 0) && leb wanted total')) [
              | true ↦ (value (read ++ bytes), device)
              | false ↦ again ((offset + length bytes) % 2 ^ 16) total' (read ++ bytes) device
            ]
      ]
    ]

-- The chunk to ask for. A wanted length of 0 stands for all there is.
abbrev pub remaining : ℕ → ℕ → ℕ
remaining wanted total = (wanted + 2 ^ 16 - total) % 2 ^ 16

abbrev pub chunk_size : ℕ → ℕ → ℕ
chunk_size wanted total =
    if wanted == 0 then max_read_chunk_size else min max_read_chunk_size (remaining wanted total)

-- What was read, cut to what was wanted.
unfoldable pub trimmed : ℕ → Response → Response
trimmed wanted (unexpected e) = unexpected e
trimmed wanted (value bytes) =
    if not (wanted == 0) && ltb wanted (length bytes)
    then value (take wanted bytes)
    else value bytes

module _ {D : Type 0} (send : List ℕ → D → Response × D) where
  -- The loop, with the attempts that are left.
  unfoldable pub read_loop : List ℕ → ℕ → ℕ → ℕ → ℕ → List ℕ → D → Response × D
  unfolding read_command take_response
  read_loop prefix wanted zero offset total read device =
      (unexpected (from_io_return timeout), device)
  read_loop prefix wanted (suc left) offset total read device =
      elim (not (wanted == 0) && (remaining wanted total == 0)) [
        | true ↦ (value read, device)
        | false ↦
            take_response wanted offset total read (read_loop prefix wanted left)
              (send (read_command prefix (chunk_size wanted total) offset) device)
      ]

  unfoldable pub read_from : List ℕ → ℕ → ℕ → D → Response × D
  unfolding read_loop trimmed
  read_from prefix offset wanted device =
      let (reply, device') = read_loop prefix wanted max_read_attempts offset 0 [] device in
      (trimmed wanted reply, device')
