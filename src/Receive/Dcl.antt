-- ===== src/Receive/Dcl.antt =====
-- src/Isoch/core/IsochDCLManager.cpp: the DCL program of the receiver. What the pool and the port are
-- told is a list of calls, the latest first. A DCL is a number that the pool gives: whether it gives one
-- for packet `i` is `allocate i`. The pointer of a DCL's time stamp is read back nowhere.
use fire_wire_audio.Prelude.{
  ℕ, zero, suc, ◌+◌, ◌-◌, ◌*◌, ◌%◌, ◌^◌, Bool, true, false, not, ◌&&◌, ◌||◌, Option, none, some,
  List, [], ◌∷◌, ◌==◌, if◌then◌else◌, set,
}
use fire_wire_audio.Prelude.Expected.{
  Expected, value, unexpected, bad_argument, busy, not_ready, from_io_return, general_error,
}
use fire_wire_audio.Transmit.Dcl.{VirtualRange, Outcome, completed, self_deadlock, and_then, resize}
use fire_wire_audio.Receive.{
  BufferManager, isoch_header_size, cip_header_size, get_packet_timestamp_ptr,
  get_packet_isoch_header_ptr, get_packet_cip_header_ptr, get_packet_data_ptr,
}

pub record DclConfig : Type 0 where
  pub num_groups : ℕ
  pub packets_per_group : ℕ
  pub callback_group_interval : ℕ

pub data ReceiveCall : Type 0 where
  allocate_receive_packet : ℕ → List VirtualRange → ReceiveCall
  set_time_stamp : ℕ → ℕ → ReceiveCall
  set_flags set_refcon_manager set_callback : ℕ → ReceiveCall
  set_refcon_group : ℕ → ℕ → ReceiveCall
  set_branch : ℕ → ℕ → ReceiveCall
  notify_jump : ℕ → ReceiveCall

pub record ReceiveDcl : Type 0 where
  pub config : DclConfig
  pub has_pool : Bool
  pub group_infos : List (Option ℕ)
  pub first_dcl : Option ℕ
  pub last_dcl : Option ℕ
  pub current_segment : ℕ
  pub program_created : Bool
  pub has_complete_callback : Bool
  pub has_overrun_callback : Bool

unfoldable pub new_receive : DclConfig → Bool → ReceiveDcl
new_receive c pool = record {
  config = c;
  has_pool = pool;
  group_infos = [];
  first_dcl = none;
  last_dcl = none;
  current_segment = 0;
  program_created = false;
  has_complete_callback = false;
  has_overrun_callback = false;
}

unfoldable pub set_receive_complete : ReceiveDcl → Bool → ReceiveDcl
set_receive_complete d callback = record d { has_complete_callback = callback }

unfoldable pub set_receive_overrun : ReceiveDcl → Bool → ReceiveDcl
set_receive_overrun d callback = record d { has_overrun_callback = callback }

unfoldable pub reset_receive : ReceiveDcl → ReceiveDcl
reset_receive d = record d {
  group_infos = [];
  first_dcl = none;
  last_dcl = none;
  program_created = false;
}

pub record ReceivePointers : Type 0 where
  pub isoch_header : ℕ
  pub cip_header : ℕ
  pub payload : ℕ
  pub timestamp : ℕ

unfoldable pub receive_pointers : BufferManager → ℕ → ℕ → Option ReceivePointers
receive_pointers m g p = elim (get_packet_isoch_header_ptr m g p) [
  | unexpected e ↦ none
  | value isoch ↦ elim (get_packet_cip_header_ptr m g p) [
    | unexpected e ↦ none
    | value cip ↦ elim (get_packet_data_ptr m g p) [
      | unexpected e ↦ none
      | value payload ↦ elim (get_packet_timestamp_ptr m g p) [
        | unexpected e ↦ none
        | value stamp ↦ some (record {
          isoch_header = isoch;
          cip_header = cip;
          payload = payload;
          timestamp = stamp;
        })
      ]
    ]
  ]
]

-- An interval of 0 counts as 1.
abbrev pub callback_interval : DclConfig → ℕ
callback_interval c = if c.callback_group_interval == 0 then 1 else c.callback_group_interval

unfoldable pub group_calls_back : DclConfig → ℕ → ℕ → Bool
group_calls_back c g p =
    (p == c.packets_per_group - 1) && ((g + 1) % 2 ^ 32 % callback_interval c == 0)

abbrev pub receive_ranges : BufferManager → ReceivePointers → List VirtualRange
receive_ranges m at =
    (at.isoch_header, isoch_header_size)
    ∷ (at.cip_header, cip_header_size)
    ∷ (at.payload, m.config.packet_data_size)
    ∷ []

unfoldable pub receive_calls :
    DclConfig
    → BufferManager
    → ReceivePointers
    → ℕ
    → ℕ
    → ℕ
    → Option ℕ
    → List ReceiveCall
    → List ReceiveCall
unfolding group_calls_back
receive_calls c m at dcl g p previous calls =
    let allocated =
      set_refcon_manager dcl
      ∷ set_flags dcl
      ∷ set_time_stamp dcl at.timestamp
      ∷ allocate_receive_packet dcl (receive_ranges m at)
      ∷ calls in
    let linked : List ReceiveCall = elim previous [
      | none ↦ allocated
      | some d ↦ set_branch d dcl ∷ allocated
    ] in
    if group_calls_back c g p then set_refcon_group dcl g ∷ set_callback dcl ∷ linked else linked

-- The variables of the loops.
pub record Laid : Type 0 where
  pub first : Option ℕ
  pub previous : Option ℕ
  pub calls : List ReceiveCall

-- An error calls `reset`, which takes the lock that is held.
unfoldable pub lay_packet : DclConfig → BufferManager → (ℕ → Option ℕ) → ℕ → ℕ → Laid → Outcome Laid
unfolding receive_pointers receive_calls
lay_packet c m allocate g p b = elim (receive_pointers m g p) [
  | none ↦ self_deadlock
  | some at ↦ elim (allocate ((g * c.packets_per_group + p) % 2 ^ 32)) [
    | none ↦ self_deadlock
    | some dcl ↦ completed (record {
      first = if (g == 0) && (p == 0) then some dcl else b.first;
      previous = some dcl;
      calls = receive_calls c m at dcl g p b.previous b.calls;
    })
  ]
]

-- The inner loop, from packet `p` on.
unfoldable pub lay_packets :
    DclConfig → BufferManager → (ℕ → Option ℕ) → ℕ → ℕ → ℕ → Laid → Outcome Laid
unfolding lay_packet
lay_packets c m allocate g zero p b = completed b
lay_packets c m allocate g (suc n) p b =
    and_then (lay_packet c m allocate g p b) (λ b'. lay_packets c m allocate g n (p + 1) b')

-- The outer loop, from group `g` on.
unfoldable pub lay_groups : DclConfig → BufferManager → (ℕ → Option ℕ) → ℕ → ℕ → Laid → Outcome Laid
unfolding lay_packets
lay_groups c m allocate zero g b = completed b
lay_groups c m allocate (suc n) g b =
    and_then (lay_packets c m allocate g c.packets_per_group 0 b)
      (λ b'. lay_groups c m allocate n (g + 1) b')

-- Each group's entry gets its index.
unfoldable pub number_groups : ℕ → ℕ → List (Option ℕ) → List (Option ℕ)
number_groups zero g infos = infos
number_groups (suc n) g infos = number_groups n (g + 1) (set infos g (some g))

pub record LaidProgram : Type 0 where
  pub result : Expected ℕ
  pub manager : ReceiveDcl
  pub calls : List ReceiveCall

unfoldable pub finish_receive : ReceiveDcl → Option ℕ → Laid → Outcome LaidProgram
unfolding number_groups
finish_receive d program b = elim program [
  | none ↦ self_deadlock
  | some handle ↦ completed (record {
    result = value handle;
    manager = record d {
      group_infos = number_groups d.config.num_groups 0 (resize d.group_infos d.config.num_groups);
      first_dcl = b.first;
      last_dcl = b.previous;
      program_created = true;
    };
    calls = b.calls;
  })
]

-- `program` is what the pool's GetProgram gives.
unfoldable pub create_receive_program :
    ReceiveDcl → BufferManager → (ℕ → Option ℕ) → Option ℕ → Outcome LaidProgram
unfolding lay_groups finish_receive
create_receive_program d m allocate program =
    if d.program_created
    then completed (record { result = unexpected busy; manager = d; calls = [] })
    else if not d.has_pool
    then completed (record { result = unexpected not_ready; manager = d; calls = [] })
    else if (d.config.num_groups == 0) || (d.config.packets_per_group == 0)
    then completed (record { result = unexpected bad_argument; manager = d; calls = [] })
    else and_then
        (lay_groups d.config m allocate d.config.num_groups 0
          (record { first = d.first_dcl; previous = none; calls = [] }))
        (finish_receive d program)

-- The reply of the port to the notice is only logged.
unfoldable pub fixup_receive_jump :
    ReceiveDcl → Bool → Expected (Unit {0}) × List ReceiveCall × ReceiveDcl
fixup_receive_jump d local_port =
    if not d.program_created then (unexpected not_ready, [], d) else elim d.first_dcl [
      | none ↦ (unexpected not_ready, [], d)
      | some first ↦ elim d.last_dcl [
        | none ↦ (unexpected not_ready, [], d)
        | some last ↦ if not local_port then (unexpected bad_argument, [], d) else (
          value tt,
          notify_jump last ∷ set_branch last first ∷ [],
          record d { current_segment = 0 },
        )
      ]
    ]

unfoldable pub get_receive_program : ReceiveDcl → Option ℕ → Expected ℕ
get_receive_program d program = if not d.has_pool then unexpected not_ready else elim program [
  | none ↦ unexpected (from_io_return general_error)
  | some handle ↦ value handle
]

-- The group that the client's callback is told of, if it has one.
unfoldable pub receive_complete : ReceiveDcl → Option ℕ → Option ℕ
receive_complete d group = if d.has_complete_callback then group else none

-- Whether the client's callback is told of an overrun.
unfoldable pub receive_overrun : ReceiveDcl → Bool
receive_overrun d = d.has_overrun_callback
