-- ===== src/PortChannel/Setup.antt =====
-- src/Isoch/core/IsochPortChannelManager.cpp: the local port and the channel, the configuration, the
-- getters and the handlers of the remote port.
use fire_wire_audio.Prelude.{
  ℕ, ◌-◌, ◌/◌, ◌%◌, ◌^◌, true, false, not, ◌||◌, Option, none, some, List, [], ◌∷◌, leb, ◌==◌,
  if◌then◌else◌,
}
use fire_wire_audio.Prelude.Expected.{
  Expected, value, unexpected, bad_argument, not_ready, busy, no_memory, returned, from_io_return,
  general_error,
}
use fire_wire_audio.PortChannel.{
  PortManager, PortEffect, acquired, released, set_finalize_callback, set_channel_ref_con,
  add_listener, set_talker, local_object, channel_object, Done, next_step, or_else, finished,
  release_effect, any_available_isoch_channel,
}

pub record SetupReplies : Type 0 where
  pub new_local : Option ℕ
  pub finalize_reply : ℕ
  pub new_channel : Option ℕ
  pub listener_reply : ℕ
  pub talker_reply : ℕ

-- A step that is refused at once.
abbrev pub not_prepared : PortManager → Done
not_prepared m = record { result = unexpected not_ready; effects = []; manager = m }

-- The port that was asked for, and its finalize callback.
unfoldable pub local_port_created : PortManager → SetupReplies → Done
local_port_created m r = elim r.new_local [
  | none ↦ record {
    result = unexpected no_memory;
    effects = [];
    manager = record m { local_port = none };
  }
  | some p ↦
      if r.finalize_reply == 0
      then record {
        result = value tt;
        effects = acquired local_object p ∷ set_finalize_callback p ∷ [];
        manager = record m { local_port = some p };
      }
      else record {
        result = unexpected (returned r.finalize_reply);
        effects = acquired local_object p ∷ set_finalize_callback p ∷ released local_object p ∷ [];
        manager = record m { local_port = none };
      }
]

-- `program` is the DCL program, `none` a null pointer; the buffer range is an address and a length.
unfoldable pub create_local_port : PortManager → Option ℕ → ℕ × ℕ → SetupReplies → Done
unfolding local_port_created
create_local_port m program (address, size) r = elim m.interface [
  | none ↦ not_prepared m
  | some h ↦ elim m.nu_dcl_pool [
    | none ↦ not_prepared m
    | some pool ↦ elim program [
      | none ↦ record { result = unexpected bad_argument; effects = []; manager = m }
      | some dcls ↦
          if (address == 0) || (size == 0)
          then record { result = unexpected bad_argument; effects = []; manager = m }
          else if not (address % 4 == 0)
          then record { result = unexpected bad_argument; effects = []; manager = m }
          else local_port_created m r
    ]
  ]
]

-- The channel's two ends: the first port listens, the second talks.
unfoldable pub connect : PortManager → ℕ → ℕ → ℕ → SetupReplies → Done
connect m c listener talker r =
    if not (r.listener_reply == 0)
    then record {
      result = unexpected (returned r.listener_reply);
      effects = acquired channel_object c ∷ add_listener c listener ∷ [];
      manager = m;
    }
    else if not (r.talker_reply == 0)
    then record {
      result = unexpected (returned r.talker_reply);
      effects = acquired channel_object c ∷ add_listener c listener ∷ set_talker c talker ∷ [];
      manager = m;
    }
    else record {
      result = value tt;
      effects =
          acquired channel_object c
          ∷ add_listener c listener
          ∷ set_talker c talker
          ∷ set_channel_ref_con c
          ∷ [];
      manager = m;
    }

unfoldable pub create_isoch_channel : PortManager → SetupReplies → Done
unfolding connect
create_isoch_channel m r = elim m.interface [
  | none ↦ not_prepared m
  | some h ↦ elim m.local_port [
    | none ↦ not_prepared m
    | some here ↦ elim m.remote_port [
      | none ↦ not_prepared m
      | some there ↦ elim r.new_channel [
        | none ↦ record {
          result = unexpected (from_io_return general_error);
          effects = [];
          manager = record m { isoch_channel = none };
        }
        | some c ↦
            if m.is_talker
            then connect (record m { isoch_channel = some c }) c there here r
            else connect (record m { isoch_channel = some c }) c here there r
      ]
    ]
  ]
]

-- Only the local port is given back when the channel fails.
unfoldable pub drop_local_port : PortManager → List PortEffect × PortManager
drop_local_port m = (release_effect local_object m.local_port, record m { local_port = none })

unfoldable pub setup_local_port_and_channel : PortManager → Option ℕ → ℕ × ℕ → SetupReplies → Done
unfolding create_local_port create_isoch_channel drop_local_port
setup_local_port_and_channel m program range r =
    if not m.initialized
    then not_prepared m
    else next_step (create_local_port m program range r)
        (λ m1. or_else (create_isoch_channel m1 r) drop_local_port)

unfoldable pub configure : PortManager → ℕ → ℕ → Done
configure m speed channel =
    if not m.initialized
    then not_prepared m
    else if m.running
    then record { result = unexpected busy; effects = []; manager = m }
    else finished (record m { configured_speed = speed; configured_channel = channel })

unfoldable pub get_active_channel : PortManager → Expected ℕ
get_active_channel m = if m.initialized then value m.active_channel else unexpected not_ready

-- The replies are the bus generation's, and the node's for it.
unfoldable pub get_local_node_id : PortManager → ℕ → ℕ × ℕ → Expected ℕ
get_local_node_id m generation_reply (node_reply, node) = elim m.interface [
  | none ↦ unexpected not_ready
  | some h ↦
      if not (generation_reply == 0)
      then unexpected (returned generation_reply)
      else if not (node_reply == 0)
      then unexpected (returned node_reply)
      else value node
]

-- The channels that the remote port offers, as a mask; `none` where the shift is as wide as the word.
unfoldable pub channels_supported : ℕ → Option ℕ
channels_supported channel =
    if channel == any_available_isoch_channel
    then some (2 ^ 64 - 2)
    else if leb 64 channel
    then none
    else some (2 ^ 63 / 2 ^ channel)

unfoldable pub get_supported : PortManager → ℕ × Option ℕ
unfolding channels_supported
get_supported m = (m.configured_speed, channels_supported m.configured_channel)

-- The calls of the framework.
pub data PortHandler : Type 0 where
  allocate_port : ℕ → PortHandler
  release_port start_port stop_port port_finalize : PortHandler

unfoldable pub handle : PortManager → PortHandler → PortManager
handle m (allocate_port channel) = record m { active_channel = channel }
handle m release_port = record m { active_channel = any_available_isoch_channel }
handle m start_port = record m { running = true }
handle m stop_port = record m { running = false }
handle m port_finalize = record m { finalized = true }
