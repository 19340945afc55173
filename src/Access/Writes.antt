-- ===== src/Access/Writes.antt =====
-- The writes, when the target puts its address behind the status, as AV/C frames do.
use fire_wire_audio.Prelude.{ℕ, ◌≤◌, ◌≡◌, ap, ◌∙◌, false, List, ◌∷◌, arith, ltb, length}
use fire_wire_audio.Prelude.Expected.{value, unexpected, from_io_return, bad_response}
use fire_wire_audio.Access.{
  Response, accepted_status, check_standard_response, check_write_response_subfunction,
}
use fire_wire_audio.Access.Commands.{
  written, replace_command, write_partial_replace, write_info_block, delete_descriptor,
}

-- Every command is accepted, in a response that starts like an AV/C frame.
unfoldable pub Accepts : {D : Type 0} → (List ℕ → D → Response × D) → ℕ → Type 0
Accepts {D = D} send target =
    (command : List ℕ) (device : D)
    → (rest : List ℕ) × (device' : D) × (send command device
        ≡ (value (accepted_status ∷ target ∷ rest), device'))

accepted_write :
    (target : ℕ) (rest : List ℕ)
    → 80 ≤ target
    → written (value (accepted_status ∷ target ∷ rest)) ≡ unexpected (from_io_return bad_response)
unfolding written check_standard_response check_write_response_subfunction
accepted_write target rest high = ground arith

-- A write, an info block's write or a deletion that the target accepts is reported as a bad response
-- when the target's address is 0x50 or higher, as a music subunit's is: the byte that is taken for
-- the subfunction is the address.
pub accepted_writes_fail :
    {D : Type 0} (send : List ℕ → D → Response × D) (target step tag offset original : ℕ)
    (place bytes : List ℕ) (device : D)
    → Accepts send target
    → 80 ≤ target
    → length bytes ≤ 0xFFFF
    → ((write_partial_replace send target place offset original bytes tag device).0
        ≡ unexpected (from_io_return bad_response))
      × ((write_info_block send target (step ∷ place) offset original bytes tag device).0
          ≡ unexpected (from_io_return bad_response))
      × ((delete_descriptor send target place tag device).0
          ≡ unexpected (from_io_return bad_response))
unfolding Accepts write_partial_replace write_info_block delete_descriptor
accepted_writes_fail send target step tag offset original place bytes device accepts high room =
    let fits : ltb 0xFFFF (length bytes) ≡ false = ground arith in
    (
      rw fits (sent (replace_command 0x0A target place tag offset original bytes)),
      rw fits (sent (replace_command 0x07 target (step ∷ place) tag offset original bytes)),
      sent _,
    )
  where
    sent :
        (command : List ℕ)
        → written ((send command device).0) ≡ unexpected (from_io_return bad_response)
    sent command =
        let (rest, device', e) = accepts command device in
        ap (λ a. written (a.0)) e ∙ accepted_write target rest high
