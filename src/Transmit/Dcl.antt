-- ===== src/Transmit/Dcl.antt =====
-- src/Isoch/core/IsochTransmitDCLManager.cpp: the DCL program that sends the packets. What the pool
-- and the port are told, and what is written to the buffers, are calls in a list, the latest first.
-- A DCL is a number that the pool gives; whether it gives one for packet `i` is `allocate i`.
use fire_wire_audio.Prelude.{
  ℕ, zero, suc, ◌+◌, ◌-◌, ◌*◌, ◌%◌, ◌^◌, Bool, true, false, not, ◌&&◌, ◌||◌, Option, none, some,
  List, [], ◌∷◌, ◌++◌, ◌==◌, if◌then◌else◌, bit_and, length, take, replicate, set,
}
use fire_wire_audio.Prelude.Expected.{Expected, value, unexpected, bad_argument, busy}
use fire_wire_audio.Transmit.{TransmitterConfig, transmit_cip_header_size}
use fire_wire_audio.Transmit.Buffers.{
  TransmitBuffers, packet_index, isoch_header_ptr, cip_header_ptr, group_timestamp_ptr,
}

-- An address and a length.
abbrev pub VirtualRange : Type 0
VirtualRange = ℕ × ℕ

pub data PoolCall : Type 0 where
  write_isoch_header : ℕ → ℕ → ℕ → ℕ → PoolCall
  write_cip_header : ℕ → List ℕ → PoolCall
  allocate_send_packet set_dcl_ranges : ℕ → List VirtualRange → PoolCall
  set_user_header set_time_stamp : ℕ → ℕ → PoolCall
  set_callback set_refcon_manager set_flags : ℕ → PoolCall
  set_refcon_group : ℕ → ℕ → PoolCall
  set_branch : ℕ → ℕ → PoolCall
  notify_modified : List ℕ → PoolCall
  notify_jump_modified : ℕ → PoolCall

pub record DclManager : Type 0 where
  pub config : TransmitterConfig
  pub has_pool : Bool
  pub dcl_program_refs : List (Option ℕ)
  pub callback_infos : List (Option ℕ)
  pub first_dcl : Option ℕ
  pub last_dcl : Option ℕ
  pub program_created : Bool
  pub has_complete_callback : Bool

-- A call that returns, one that waits for a lock which its own thread holds, and one that divides by 0.
pub data Outcome {ℓ} (A : Type ℓ) : Type ℓ where
  completed : A → Outcome A
  self_deadlock division_by_zero : Outcome A

abbrev pub and_then : {A B : Type 0} → Outcome A → (A → Outcome B) → Outcome B
and_then (completed a) f = f a
and_then self_deadlock f = self_deadlock
and_then division_by_zero f = division_by_zero

unfoldable pub reset_program : DclManager → DclManager
reset_program d = record d {
  dcl_program_refs = [];
  callback_infos = [];
  first_dcl = none;
  last_dcl = none;
  has_pool = false;
  program_created = false;
}

-- `std::vector::resize`.
abbrev pub resize : {A : Type 0} → List (Option A) → ℕ → List (Option A)
resize xs n = take n xs ++ replicate (n - length xs) none

pub record PacketPointers : Type 0 where
  pub isoch_header : ℕ
  pub cip_header : ℕ
  pub audio_data : ℕ
  pub timestamp : ℕ

-- Where packet `i` finds its audio: the packets go round the client's buffer.
unfoldable pub audio_data_ptr : TransmitBuffers → ℕ → ℕ
audio_data_ptr m i =
    m.client_audio_area + i * m.audio_payload_size_per_packet % m.config.client_buffer_size

unfoldable pub packet_pointers : TransmitBuffers → ℕ → ℕ → ℕ → Option PacketPointers
unfolding isoch_header_ptr cip_header_ptr group_timestamp_ptr audio_data_ptr
packet_pointers m i g p = elim (isoch_header_ptr m g p) [
  | unexpected e ↦ none
  | value isoch ↦ elim (cip_header_ptr m g p) [
    | unexpected e ↦ none
    | value cip ↦ elim (group_timestamp_ptr m g) [
      | unexpected e ↦ none
      | value stamp ↦
          if audio_data_ptr m i == 0
          then none
          else some (record {
            isoch_header = isoch;
            cip_header = cip;
            audio_data = audio_data_ptr m i;
            timestamp = stamp;
          })
    ]
  ]
]

-- No data and no timestamp.
abbrev pub initial_cip_header : List ℕ
initial_cip_header = 0 ∷ 0 ∷ 0 ∷ 0 ∷ 0x41 ∷ 0xFF ∷ 0xFF ∷ 0xFF ∷ []

-- The last packet of a group calls back, when it is that group's turn.
unfoldable pub calls_back : TransmitterConfig → ℕ → ℕ → Bool
calls_back c g p =
    (p == c.packets_per_group - 1) && ((g + 1) % 2 ^ 32 % c.callback_group_interval == 0)

unfoldable pub packet_calls :
    TransmitterConfig → ℕ → PacketPointers → ℕ → ℕ → ℕ → Option ℕ → List PoolCall → List PoolCall
unfolding calls_back
packet_calls c payload at dcl g p previous calls =
    let written =
      write_cip_header at.cip_header initial_cip_header
      ∷ write_isoch_header at.isoch_header 0 (0x40 + bit_and c.initial_channel 0x3F) 0xA0
      ∷ calls in
    let allocated =
      set_time_stamp dcl at.timestamp
      ∷ set_user_header dcl at.isoch_header
      ∷ allocate_send_packet dcl
          ((at.cip_header, transmit_cip_header_size) ∷ (at.audio_data, payload) ∷ [])
      ∷ written in
    let refconned =
      if calls_back c g p
      then set_refcon_group dcl g ∷ set_callback dcl ∷ allocated
      else set_refcon_manager dcl ∷ allocated in
    elim previous [
      | none ↦ set_flags dcl ∷ refconned
      | some d ↦ set_branch d dcl ∷ set_flags dcl ∷ refconned
    ]

-- The state of the loops.
pub record Building : Type 0 where
  pub manager : DclManager
  pub previous_dcl : Option ℕ
  pub calls : List PoolCall

unfoldable pub add_packet : TransmitBuffers → ℕ → ℕ → ℕ → PacketPointers → ℕ → Building → Building
unfolding packet_calls
add_packet m i g p at dcl b = record {
  manager = record b.manager {
    dcl_program_refs = set b.manager.dcl_program_refs i (some dcl);
    first_dcl = if i == 0 then some dcl else b.manager.first_dcl;
  };
  previous_dcl = some dcl;
  calls =
      packet_calls b.manager.config m.audio_payload_size_per_packet at dcl g p b.previous_dcl
        b.calls;
}

-- An error calls `reset`, which takes the lock that is held.
unfoldable pub create_packet :
    TransmitBuffers → (ℕ → Option ℕ) → ℕ → ℕ → Building → Outcome Building
unfolding packet_pointers add_packet packet_index
create_packet m allocate g p b =
    let i = packet_index b.manager.config g p in
    if m.config.client_buffer_size == 0 then division_by_zero else elim (packet_pointers m i g p) [
      | none ↦ self_deadlock
      | some at ↦ elim (allocate i) [
        | none ↦ self_deadlock
        | some dcl ↦
            if b.manager.config.callback_group_interval == 0
            then division_by_zero
            else completed (add_packet m i g p at dcl b)
      ]
    ]

-- The inner loop, from packet `p` on.
unfoldable pub create_packets :
    TransmitBuffers → (ℕ → Option ℕ) → ℕ → ℕ → ℕ → Building → Outcome Building
unfolding create_packet
create_packets m allocate g zero p b = completed b
create_packets m allocate g (suc n) p b =
    and_then (create_packet m allocate g p b) (λ b'. create_packets m allocate g n (p + 1) b')

unfoldable pub begin_group : ℕ → Building → Building
begin_group g b = record b {
  manager = record b.manager { callback_infos = set b.manager.callback_infos g (some g) };
}

-- The outer loop, from group `g` on.
unfoldable pub create_groups :
    TransmitBuffers → (ℕ → Option ℕ) → ℕ → ℕ → Building → Outcome Building
unfolding create_packets begin_group
create_groups m allocate zero g b = completed b
create_groups m allocate (suc n) g b =
    and_then (create_packets m allocate g b.manager.config.packets_per_group 0 (begin_group g b))
      (λ b'. create_groups m allocate n (g + 1) b')

-- The manager before the loops, with its lists sized.
unfoldable pub prepare : DclManager → TransmitterConfig → DclManager
prepare d c = record d {
  config = c;
  has_pool = true;
  dcl_program_refs = resize d.dcl_program_refs (c.num_groups * c.packets_per_group % 2 ^ 32);
  callback_infos = resize d.callback_infos c.num_groups;
}

pub record Created : Type 0 where
  pub result : Expected ℕ
  pub manager : DclManager
  pub calls : List PoolCall

unfoldable pub finish_program : Option ℕ → Building → Outcome Created
finish_program program b = elim program [
  | none ↦ self_deadlock
  | some handle ↦ completed (record {
    result = value handle;
    manager = record b.manager { last_dcl = b.previous_dcl; program_created = true };
    calls = b.calls;
  })
]

-- `program` is what the pool's GetProgram gives.
unfoldable pub create_dcl_program :
    DclManager
    → TransmitterConfig
    → Bool
    → TransmitBuffers
    → (ℕ → Option ℕ)
    → Option ℕ
    → Outcome Created
unfolding create_groups prepare finish_program
create_dcl_program d c pool m allocate program =
    if d.program_created
    then completed (record { result = unexpected busy; manager = d; calls = [] })
    else if not pool
    then completed (record { result = unexpected bad_argument; manager = d; calls = [] })
    else if (c.num_groups == 0) || (c.packets_per_group == 0)
    then completed (record {
      result = unexpected bad_argument;
      manager = record d { config = c; has_pool = true };
      calls = [];
    })
    else and_then
        (create_groups m allocate c.num_groups 0
          (record { manager = prepare d c; previous_dcl = none; calls = [] }))
        (finish_program program)
