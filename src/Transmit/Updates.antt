-- ===== src/Transmit/Updates.antt =====
-- src/Isoch/core/IsochTransmitDCLManager.cpp: the calls on a DCL program that exists. The replies of
-- the pool and of the port are arguments, 0 being success.
use fire_wire_audio.Prelude.{
  ℕ, zero, suc, ◌+◌, ◌*◌, ◌%◌, ◌^◌, Bool, not, ◌||◌, Option, none, some, List, [], ◌∷◌, leb, ◌==◌,
  if◌then◌else◌, length, get_or,
}
use fire_wire_audio.Prelude.Expected.{
  Expected, value, unexpected, bad_argument, not_ready, returned,
}
use fire_wire_audio.Transmit.Buffers.{packet_index}
use fire_wire_audio.Transmit.Dcl.{
  DclManager, PoolCall, VirtualRange, set_branch, set_dcl_ranges, notify_modified,
  notify_jump_modified,
}

-- What a call gives back, and what it made the pool and the port do.
abbrev pub Reply : Type 0
Reply = Expected (Unit {0}) × List PoolCall

abbrev pub reply_of : ℕ → List PoolCall → Reply
reply_of code calls = if code == 0 then (value tt, calls) else (unexpected (returned code), calls)

-- The last DCL jumps to the first, and the port is told of it.
unfoldable pub fixup_dcl_jump_targets : DclManager → Bool → ℕ → ℕ → Reply
fixup_dcl_jump_targets d local_port branch_reply notify_reply =
    if not d.program_created || not d.has_pool
    then (unexpected not_ready, [])
    else elim d.first_dcl [
      | none ↦ (unexpected not_ready, [])
      | some first ↦ elim d.last_dcl [
        | none ↦ (unexpected not_ready, [])
        | some last ↦
            if not local_port
            then (unexpected bad_argument, [])
            else if branch_reply == 0
            then reply_of notify_reply (notify_jump_modified last ∷ set_branch last first ∷ [])
            else (unexpected (returned branch_reply), set_branch last first ∷ [])
      ]
    ]

unfoldable pub get_dcl_ref : DclManager → ℕ → ℕ → Option ℕ
unfolding packet_index
get_dcl_ref d g p =
    let i = packet_index d.config g p in
    if not d.program_created || leb (length d.dcl_program_refs) i
    then none
    else get_or d.dcl_program_refs i none

unfoldable pub update_dcl_packet : DclManager → ℕ → ℕ → List VirtualRange → ℕ → Reply
unfolding get_dcl_ref
update_dcl_packet d g p ranges pool_reply =
    if not d.program_created || not d.has_pool
    then (unexpected not_ready, [])
    else elim (get_dcl_ref d g p) [
      | none ↦ (unexpected bad_argument, [])
      | some dcl ↦ reply_of pool_reply (set_dcl_ranges dcl ranges ∷ [])
    ]

-- The places from `start` on, when all of them exist.
unfoldable pub refs_from : List (Option ℕ) → ℕ → ℕ → Option (List (Option ℕ))
refs_from refs start zero = some []
refs_from refs start (suc n) =
    let rest = refs_from refs (start + 1) n in
    if leb (length refs) (start % 2 ^ 32)
    then none
    else elim rest [ none ↦ none | some others ↦ some (get_or refs (start % 2 ^ 32) none ∷ others) ]

abbrev pub all_refs : List (Option ℕ) → Option (List ℕ)
all_refs [] = some []
all_refs (none ∷ refs) = none
all_refs (some dcl ∷ refs) = elim (all_refs refs) [ none ↦ none | some dcls ↦ some (dcl ∷ dcls) ]

-- kIOReturnBadArgument
abbrev pub io_return_bad_argument : ℕ
io_return_bad_argument = 0xE00002C2

unfoldable pub notify_dcl_updates : List (Option ℕ) → ℕ → Reply
notify_dcl_updates refs port_reply = elim (all_refs refs) [
  | none ↦ (unexpected (returned io_return_bad_argument), [])
  | some dcls ↦ reply_of port_reply (notify_modified dcls ∷ [])
]

unfoldable pub notify_segment_update : DclManager → Bool → ℕ → ℕ → Reply
unfolding refs_from notify_dcl_updates
notify_segment_update d local_port g port_reply =
    if not d.program_created
    then (unexpected not_ready, [])
    else if not local_port || leb d.config.num_groups g
    then (unexpected bad_argument, [])
    else elim (refs_from d.dcl_program_refs (g * d.config.packets_per_group % 2 ^ 32)
        d.config.packets_per_group) [
          | none ↦ (unexpected bad_argument, [])
          | some [] ↦ (value tt, [])
          | some (dcl ∷ others) ↦ notify_dcl_updates (dcl ∷ others) port_reply
        ]

unfoldable pub get_program_handle : DclManager → Option ℕ → Option ℕ
get_program_handle d program = if not d.program_created || not d.has_pool then none else program

-- The group that the client's callback is told of.
unfoldable pub dcl_complete : DclManager → ℕ → Option ℕ
dcl_complete d g = if d.has_complete_callback then some g else none
