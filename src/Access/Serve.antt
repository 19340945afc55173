-- ===== src/Access/Serve.antt =====
-- A target that serves one descriptor whose specifier is one byte, and the loop that reads it.
use fire_wire_audio.Prelude.{
  ℕ, suc, ◌+◌, ◌-◌, ◌*◌, ◌/◌, ◌%◌, ◌^◌, ◌≤◌, ◌<◌, ◌≡◌, refl, ap, ◌∙◌, inl, inr, min, true, false,
  not, ◌&&◌, ◌||◌, List, [], ◌∷◌, ◌++◌, arith, ltb, leb, ◌==◌, if◌then◌else◌, length, drop, take,
  length-take, length-drop, take_all, Bool-cases,
}
use fire_wire_audio.Prelude.Expected.{value, unexpected, from_io_return, bad_response}
use fire_wire_audio.Access.{
  control_command, Response, check_standard_response, chunk_of, read_command, read_loop,
  max_read_chunk_size, take_response, remaining, chunk_size,
}

-- The bytes of a chunk, and the response frame of READ DESCRIPTOR that brings them: the status, the
-- command's target, opcode and one-byte specifier, whether there is more, the length, the address, the
-- data.
abbrev pub chunk_bytes : List ℕ → ℕ → ℕ → List ℕ
chunk_bytes memory chunk offset = take chunk (drop offset memory)

unfoldable pub serve : ℕ → ℕ → List ℕ → ℕ → ℕ → List ℕ
serve target kind memory chunk offset =
    let bytes = chunk_bytes memory chunk offset in
    0x09
    ∷ target
    ∷ 0x09
    ∷ kind
    ∷ (if ltb (offset + chunk) (length memory) then 0x11 else 0x10)
    ∷ 0
    ∷ length bytes / 2 ^ 8
    ∷ length bytes % 2 ^ 8
    ∷ offset / 2 ^ 8
    ∷ offset % 2 ^ 8
    ∷ bytes

-- What a read command begins with.
abbrev pub command_prefix : ℕ → ℕ → List ℕ
command_prefix target kind = (control_command ∷ target ∷ 0x09 ∷ []) ++ (kind ∷ [])

-- The target answers every read command in this way and stays as it is.
unfoldable pub AnswersReads :
    {D : Type 0} → (List ℕ → D → Response × D) → ℕ → ℕ → List ℕ → D → Type 0
AnswersReads send target kind memory device =
    (chunk offset : ℕ)
    → chunk < 2 ^ 16
    → offset < 2 ^ 16
    → send (read_command (command_prefix target kind) chunk offset) device
      ≡ (value (serve target kind memory chunk offset), device)

served_standard :
    (target kind : ℕ) (memory : List ℕ) (chunk offset : ℕ)
    → check_standard_response (value (serve target kind memory chunk offset))
      ≡ value (serve target kind memory chunk offset)
unfolding check_standard_response serve
served_standard target kind memory chunk offset = refl

-- A response with a whole header gives all its bytes.
formed_chunk :
    (target kind result a b : ℕ) (bytes : List ℕ)
    → length bytes < 2 ^ 16
    → chunk_of (
        0x09
        ∷ target
        ∷ 0x09
        ∷ kind
        ∷ result
        ∷ 0
        ∷ length bytes / 2 ^ 8
        ∷ length bytes % 2 ^ 8
        ∷ a
        ∷ b
        ∷ bytes)
      ≡ (if (result == 0x10) || (result == 0x12)
          then value (bytes, true)
          else if result == 0x11
          then value (bytes, length bytes == 0)
          else unexpected (from_io_return bad_response))
unfolding chunk_of
formed_chunk target kind result a b bytes small =
    let taken : min (length bytes / 2 ^ 8 * 2 ^ 8 + length bytes % 2 ^ 8) (10 + length bytes - 10)
        ≡ length bytes =
      omega arith in
    let whole : take (length bytes) bytes ≡ bytes = take_all (length bytes) bytes (omega arith) in
    ground (arith, taken, whole)

served_chunk :
    (target kind : ℕ) (memory : List ℕ) (chunk offset : ℕ)
    → 0 < chunk
    → chunk < 2 ^ 16
    → chunk_of (serve target kind memory chunk offset)
      ≡ value (chunk_bytes memory chunk offset, not (ltb (offset + chunk) (length memory)))
unfolding serve
served_chunk target kind memory chunk offset some small =
    let size : length (chunk_bytes memory chunk offset) ≡ min chunk (length memory - offset) =
      length-take chunk (drop offset memory) ∙ ap (min chunk) (length-drop offset memory) in
    formed_chunk target kind (if ltb (offset + chunk) (length memory) then 0x11 else 0x10)
      (offset / 2 ^ 8) (offset % 2 ^ 8) (chunk_bytes memory chunk offset) (omega (arith, size))
    ∙ elim (Bool-cases (ltb (offset + chunk) (length memory))) [
      | inl more ↦
          let filled : (length (chunk_bytes memory chunk offset) == 0) ≡ false =
            ground (arith, size) in
          rw (more, filled) refl
      | inr last ↦ rw last refl
    ]

-- A served response is taken as a whole.
taken :
    {D : Type 0} (target kind wanted offset total : ℕ) (read : List ℕ) (chunk : ℕ) (memory : List ℕ)
    (device : D) (again : ℕ → ℕ → List ℕ → D → Response × D)
    → 0 < chunk
    → chunk < 2 ^ 16
    → let bytes = chunk_bytes memory chunk offset in
      let total' = (total + length bytes) % 2 ^ 16 in
      take_response wanted offset total read again
        (value (serve target kind memory chunk offset), device)
      ≡ (elim (not (ltb (offset + chunk) (length memory))
            || (not (wanted == 0) && leb wanted total'))
          as (λ x. Response × D) [
            | true ↦ (value (read ++ bytes), device)
            | false ↦ again ((offset + length bytes) % 2 ^ 16) total' (read ++ bytes) device
          ])
unfolding take_response
taken target kind wanted offset total read chunk memory device again some small =
    rw
      (
        take_response,
        served_standard target kind memory chunk offset,
        served_chunk target kind memory chunk offset some small,
      )
      refl

module _ {D : Type 0} (send : List ℕ → D → Response × D) (target kind : ℕ) (memory : List ℕ)
    (device : D) (served : AnswersReads send target kind memory device) where
  abbrev prefix : List ℕ
  prefix = command_prefix target kind

  -- One round of the loop, which asks for `chunk` bytes.
  pub round :
      (wanted left offset total chunk : ℕ) (read : List ℕ)
      → offset < 2 ^ 16
      → chunk_size wanted total ≡ chunk
      → 0 < chunk
      → chunk ≤ max_read_chunk_size
      → (not (wanted == 0) && (remaining wanted total == 0)) ≡ false
      → let bytes = chunk_bytes memory chunk offset in
        let total' = (total + length bytes) % 2 ^ 16 in
        read_loop send prefix wanted (suc left) offset total read device
        ≡ (elim (not (ltb (offset + chunk) (length memory))
              || (not (wanted == 0) && leb wanted total'))
            as (λ x. Response × D) [
              | true ↦ (value (read ++ bytes), device)
              | false ↦
                  read_loop send prefix wanted left
                    ((offset + length bytes) % 2 ^ 16)
                    total'
                    (read ++ bytes)
                    device
            ])
  unfolding AnswersReads read_loop
  round wanted left offset total chunk read low ask some small goes =
      rw (read_loop, goes)
        (ap
            (λ k.
              take_response wanted offset total read (read_loop send prefix wanted left)
                (send (read_command prefix k offset) device))
            ask
          ∙ ap (take_response wanted offset total read (read_loop send prefix wanted left))
              (served chunk offset (omega arith) low)
          ∙ taken target kind wanted offset total read chunk memory device
              (read_loop send prefix wanted left) some (omega arith))
