-- ===== src/Access/Commands.antt =====
-- src/FWA/DescriptorAccessor.cpp: the methods. Each builds one command, or reads in a loop, and gives
-- what the response means beside the device's state.
use fire_wire_audio.Prelude.{
  ℕ, ◌+◌, ◌/◌, ◌%◌, ◌^◌, not, ◌&&◌, ◌||◌, Option, none, some, List, [], ◌∷◌, ◌++◌, ltb, leb, ◌==◌,
  if◌then◌else◌, length, get_or, drop,
}
use fire_wire_audio.Prelude.Expected.{
  Expected, value, unexpected, from_io_return, invalid_argument, internal_error,
}
use fire_wire_audio.Specifier.{
  Sizes, default_size_of_list_id, default_size_of_entry_pos, get_descriptor_specifier_expected_size,
  read_bytes,
}
use fire_wire_audio.Access.{
  control_command, status_inquiry_command, Response, check_standard_response,
  check_write_response_subfunction, read_from,
}

-- The sizes that the accessor works with: 0 stands for the default, but not for an object's identifier.
unfoldable pub accessor_sizes : Sizes → Sizes
accessor_sizes s = record s {
  list_id = if s.list_id == 0 then default_size_of_list_id else s.list_id;
  entry_pos = if s.entry_pos == 0 then default_size_of_entry_pos else s.entry_pos;
}

-- The high and the low byte of 16 bits.
abbrev pub bytes16 : ℕ → List ℕ
bytes16 n = n / 2 ^ 8 % 2 ^ 8 ∷ n % 2 ^ 8 ∷ []

-- Success without the response.
abbrev pub done : Response → Expected (Unit {0})
done (unexpected e) = unexpected e
done (value response) = value tt

-- What a write's response says.
unfoldable pub written : Response → Expected (Unit {0})
unfolding check_standard_response check_write_response_subfunction
written reply = elim (check_standard_response reply) [
  | unexpected e ↦ unexpected e
  | value response ↦ check_write_response_subfunction response
]

unfoldable pub open_command : ℕ → List ℕ → ℕ → List ℕ
open_command target specifier subfunction =
    (control_command ∷ target ∷ 0x08 ∷ []) ++ specifier ++ (subfunction ∷ 0x00 ∷ [])

-- The command that replaces part of a descriptor (opcode 0x0A) or an info block (0x07).
unfoldable pub replace_command : ℕ → ℕ → List ℕ → ℕ → ℕ → ℕ → List ℕ → List ℕ
replace_command opcode target place tag offset original bytes =
    (control_command ∷ target ∷ opcode ∷ [])
    ++ place
    ++ (0x50 ∷ tag ∷ [])
    ++ bytes16 (length bytes)
    ++ bytes16 offset
    ++ bytes16 original
    ++ bytes

pub record CreateDescriptorResult : Type 0 where
  pub list_id : Option ℕ
  pub entry_position : Option ℕ

abbrev no_result : CreateDescriptorResult
no_result = record { list_id = none; entry_position = none }

-- The number that a response may carry at the end.
unfoldable pub optional_number : ℕ → ℕ → List ℕ → Option ℕ
optional_number size offset response =
    if ltb 0 size && leb (offset + size) (length response)
    then some (read_bytes 0 (drop offset response) size)
    else none

-- What the response to CREATE DESCRIPTOR says: a list's identifier for a new list or a new child list,
-- a position for a new entry. `what` is the type byte of what was to be created.
unfoldable pub create_result : Sizes → ℕ → ℕ → ℕ → List ℕ → CreateDescriptorResult
unfolding optional_number
create_result sizes subfunction what offset response =
    if (subfunction == 0x00)
    then (if (what == 0x11)
        then record no_result { list_id = optional_number sizes.list_id offset response }
        else record no_result { entry_position = optional_number sizes.entry_pos offset response })
    else record no_result { list_id = optional_number sizes.list_id offset response }

unfoldable pub create_command : ℕ → ℕ → List ℕ → List ℕ → List ℕ
create_command target subfunction where_to what =
    (control_command ∷ target ∷ 0x0C ∷ 0xFF ∷ subfunction ∷ 0x00 ∷ []) ++ where_to ++ what

module _ {D : Type 0} (send : List ℕ → D → Response × D) where
  -- Send, and look at the response.
  abbrev pub after_sending : {A : Type 0} → (Response → A) → List ℕ → D → A × D
  after_sending meaning command device =
      let (reply, device') = send command device in (meaning reply, device')

  unfoldable pub open_for_read : ℕ → List ℕ → D → Expected (Unit {0}) × D
  unfolding open_command
  open_for_read target specifier device =
      after_sending (λ r. done (check_standard_response r)) (open_command target specifier 0x01)
        device

  unfoldable pub open_for_write : ℕ → List ℕ → D → Expected (Unit {0}) × D
  unfolding open_command
  open_for_write target specifier device =
      after_sending (λ r. done (check_standard_response r)) (open_command target specifier 0x03)
        device

  unfoldable pub close : ℕ → List ℕ → D → Expected (Unit {0}) × D
  unfolding open_command
  close target specifier device =
      after_sending (λ r. done (check_standard_response r)) (open_command target specifier 0x00)
        device

  unfoldable pub read : ℕ → List ℕ → ℕ → ℕ → D → Response × D
  unfolding read_from
  read target specifier offset wanted device =
      read_from send ((control_command ∷ target ∷ 0x09 ∷ []) ++ specifier) offset wanted device

  unfoldable pub read_info_block : ℕ → List ℕ → ℕ → ℕ → D → Response × D
  unfolding read_from
  read_info_block target [] offset wanted device =
      (unexpected (from_io_return invalid_argument), device)
  read_info_block target (step ∷ path) offset wanted device =
      read_from send ((status_inquiry_command ∷ target ∷ 0x06 ∷ []) ++ (step ∷ path)) offset wanted
        device

  unfoldable pub write_partial_replace :
      ℕ → List ℕ → ℕ → ℕ → List ℕ → ℕ → D → Expected (Unit {0}) × D
  unfolding replace_command written
  write_partial_replace target specifier offset original bytes tag device =
      if ltb 0xFFFF (length bytes)
      then (unexpected (from_io_return invalid_argument), device)
      else after_sending written (replace_command 0x0A target specifier tag offset original bytes)
          device

  unfoldable pub write_info_block : ℕ → List ℕ → ℕ → ℕ → List ℕ → ℕ → D → Expected (Unit {0}) × D
  unfolding replace_command written
  write_info_block target [] offset original bytes tag device =
      (unexpected (from_io_return invalid_argument), device)
  write_info_block target (step ∷ path) offset original bytes tag device =
      if ltb 0xFFFF (length bytes)
      then (unexpected (from_io_return invalid_argument), device)
      else after_sending written
          (replace_command 0x07 target (step ∷ path) tag offset original bytes) device

  unfoldable pub delete_descriptor : ℕ → List ℕ → ℕ → D → Expected (Unit {0}) × D
  unfolding written
  delete_descriptor target specifier tag device =
      after_sending written
        ((control_command ∷ target ∷ 0x0A ∷ []) ++ specifier ++ (0x40 ∷ tag ∷ [])) device

  unfoldable pub create_descriptor :
      Sizes → ℕ → ℕ → List ℕ → List ℕ → D → Expected CreateDescriptorResult × D
  unfolding create_result create_command
  create_descriptor sizes target subfunction where_to what device =
      let where_size = get_descriptor_specifier_expected_size sizes (some where_to) in
      let what_size = get_descriptor_specifier_expected_size sizes (some what) in
      if not ((subfunction == 0x00) || (subfunction == 0x01))
      then (unexpected (from_io_return invalid_argument), device)
      else if (length where_to == 0) || (length what == 0)
      then (unexpected (from_io_return invalid_argument), device)
      else if (where_size == 0) || (what_size == 0)
      then (unexpected (from_io_return internal_error), device)
      else after_sending
          (λ r. elim (check_standard_response r) as (λ x. Expected CreateDescriptorResult) [
            | unexpected e ↦ unexpected e
            | value response ↦ value (
                create_result sizes subfunction (get_or what 0 0) (6 + where_size + what_size)
                  response)
          ])
          (create_command target subfunction where_to what) device
