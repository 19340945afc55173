-- ===== src/Access/Tests.antt =====
-- A target of four bytes, and the theorems applied.
use fire_wire_audio.Prelude.{
  ℕ, ◌+◌, ◌*◌, ◌/◌, ◌%◌, ◌^◌, ◌<◌, ◌≡◌, refl, ap₂, List, [], ◌∷◌, arith, get_or,
}
use fire_wire_audio.Prelude.Expected.{value, unexpected, from_io_return, bad_response}
use fire_wire_audio.Access.{Response, read_command, accepted_status}
use fire_wire_audio.Access.Commands.{
  read, write_partial_replace, write_info_block, delete_descriptor,
}
use fire_wire_audio.Access.Serve.{AnswersReads, serve}
use fire_wire_audio.Access.Whole.{read_serves}
use fire_wire_audio.Access.Writes.{Accepts, accepted_writes_fail}

abbrev four_bytes : List ℕ
four_bytes = 0 ∷ 2 ∷ 7 ∷ 8 ∷ []

-- It reads the chunk and the offset from the places they have behind a specifier of one byte.
abbrev target_of_four : List ℕ → Unit {0} → Response × Unit {0}
target_of_four command device = (
  value (
      serve 0x60 0x80 four_bytes (get_or command 6 0 * 2 ^ 8 + get_or command 7 0)
        (get_or command 8 0 * 2 ^ 8 + get_or command 9 0)),
  device,
)

abbrev one_byte : List ℕ
one_byte = 0x80 ∷ []

two_bytes : (n : ℕ) → n < 2 ^ 16 → n / 2 ^ 8 % 2 ^ 8 * 2 ^ 8 + n % 2 ^ 8 ≡ n
two_bytes n h = omega arith

target_of_four-AnswersReads : AnswersReads target_of_four 0x60 0x80 four_bytes tt
unfolding AnswersReads read_command
target_of_four-AnswersReads = λ chunk offset hc ho.
    ap₂ (λ c o. (value (serve 0x60 0x80 four_bytes c o), tt)) (two_bytes chunk hc)
      (two_bytes offset ho)

read_serves_example : read target_of_four 0x60 one_byte 1 2 tt ≡ (value (2 ∷ 7 ∷ []), tt)
read_serves_example =
    read_serves target_of_four 0x60 0x80 four_bytes tt 1 2 target_of_four-AnswersReads (omega arith)
      (omega arith) (omega arith)

abbrev accepting : List ℕ → Unit {0} → Response × Unit {0}
accepting command device = (value (accepted_status ∷ 0x60 ∷ []), device)

accepting-Accepts : Accepts accepting 0x60
unfolding Accepts
accepting-Accepts = λ command device. ([], device, refl)

accepted_writes_fail_example :
    ((write_partial_replace accepting 0x60 one_byte 0 1 (5 ∷ []) 0 tt).0
      ≡ unexpected (from_io_return bad_response))
    × ((write_info_block accepting 0x60 (3 ∷ one_byte) 0 1 (5 ∷ []) 0 tt).0
        ≡ unexpected (from_io_return bad_response))
    × ((delete_descriptor accepting 0x60 one_byte 0 tt).0
        ≡ unexpected (from_io_return bad_response))
accepted_writes_fail_example =
    accepted_writes_fail accepting 0x60 3 0 0 1 one_byte (5 ∷ []) tt accepting-Accepts (omega arith)
      (omega arith)
