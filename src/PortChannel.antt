-- ===== src/PortChannel.antt =====
-- src/Isoch/core/IsochPortChannelManager.cpp and its header: the ports and the isochronous channel of
-- a stream. What the framework creates is a number that it gives, `none` a null pointer; its return
-- codes are arguments, 0 being success. A method returns what it did to the framework's objects beside
-- the manager, in order. The handlers hand over the manager by its refCon, which is the manager here.
pub mod Setup
pub mod Balance
pub mod History
pub mod Leak
pub mod Channels
mod Tests
use fire_wire_audio.Prelude.{
  ℕ, ◌-◌, ◌/◌, ◌%◌, ◌^◌, Bool, true, false, not, ◌&&◌, ◌||◌, Option, none, some, List, [], ◌∷◌,
  ◌++◌, leb, ◌==◌, if◌then◌else◌,
}
use fire_wire_audio.Prelude.Expected.{
  Expected, value, unexpected, bad_argument, not_ready, busy, no_memory, returned, from_io_return,
  general_error,
}

abbrev pub any_available_isoch_channel : ℕ
any_available_isoch_channel = 0xFFFFFFFF

pub record PortManager : Type 0 where
  pub interface : Option ℕ
  pub nu_dcl_pool : Option ℕ
  pub remote_port : Option ℕ
  pub local_port : Option ℕ
  pub isoch_channel : Option ℕ
  pub is_talker : Bool
  pub configured_speed : ℕ
  pub configured_channel : ℕ
  pub active_channel : ℕ
  pub initialized : Bool
  pub running : Bool
  pub finalized : Bool
  pub dispatchers_added : Bool

-- What is acquired and released: references to the interface, the two dispatchers of the run loop,
-- and the objects that the interface creates.
pub data Kind : Type 0 where
  nub callback_dispatcher isoch_dispatcher pool_object remote_object local_object channel_object :
      Kind

pub data PortEffect : Type 0 where
  acquired released : Kind → ℕ → PortEffect
  set_port_handlers set_finalize_callback set_channel_ref_con : ℕ → PortEffect
  add_listener set_talker : ℕ → ℕ → PortEffect
  stop_channel release_channel : ℕ → PortEffect

pub record Done : Type 0 where
  pub result : Expected (Unit {0})
  pub effects : List PortEffect
  pub manager : PortManager

abbrev pub finished : PortManager → Done
finished m = record { result = value tt; effects = []; manager = m }

-- The next step, unless this one failed.
abbrev pub next_step : Done → (PortManager → Done) → Done
next_step d f = elim d.result [
  | unexpected e ↦ d
  | value u ↦ record {
    result = (f d.manager).result;
    effects = d.effects ++ (f d.manager).effects;
    manager = (f d.manager).manager;
  }
]

-- The cleaning up after a step that failed.
abbrev pub or_else : Done → (PortManager → List PortEffect × PortManager) → Done
or_else d f = elim d.result [
  | value u ↦ d
  | unexpected e ↦ record d { effects = d.effects ++ (f d.manager).0; manager = (f d.manager).1 }
]

unfoldable pub construct : Option ℕ → Bool → List PortEffect × PortManager
construct interface is_talker = (
  elim interface [ none ↦ [] | some h ↦ acquired nub h ∷ [] ],
  record {
    interface = interface;
    nu_dcl_pool = none;
    remote_port = none;
    local_port = none;
    isoch_channel = none;
    is_talker = is_talker;
    configured_speed = 0;
    configured_channel = any_available_isoch_channel;
    active_channel = any_available_isoch_channel;
    initialized = false;
    running = false;
    finalized = false;
    dispatchers_added = false;
  },
)

abbrev pub release_effect : Kind → Option ℕ → List PortEffect
release_effect k none = []
release_effect k (some h) = released k h ∷ []

-- The channel is stopped first when it runs.
abbrev pub channel_effects : Bool → Option ℕ → List PortEffect
channel_effects running none = []
channel_effects false (some h) = released channel_object h ∷ []
channel_effects true (some h) = stop_channel h ∷ release_channel h ∷ released channel_object h ∷ []

unfoldable pub cleanup_resources : PortManager → List PortEffect × PortManager
cleanup_resources m = (
  channel_effects m.running m.isoch_channel
      ++ (release_effect local_object m.local_port
          ++ (release_effect remote_object m.remote_port
              ++ release_effect pool_object m.nu_dcl_pool)),
  record m {
    running = elim m.isoch_channel [ none ↦ m.running | some h ↦ false ];
    isoch_channel = none;
    local_port = none;
    remote_port = none;
    nu_dcl_pool = none;
    active_channel = any_available_isoch_channel;
  },
)

unfoldable pub cleanup_dispatchers : PortManager → List PortEffect × PortManager
cleanup_dispatchers m = elim m.interface [
  | none ↦ ([], m)
  | some h ↦
      if m.dispatchers_added
      then (
        released isoch_dispatcher h ∷ released callback_dispatcher h ∷ [],
        record m { dispatchers_added = false },
      )
      else ([], m)
]

unfoldable pub reset : PortManager → List PortEffect × PortManager
unfolding cleanup_resources cleanup_dispatchers
reset m =
    let (freed, m1) = cleanup_resources m in
    let (removed, m2) = cleanup_dispatchers m1 in
    (
      freed ++ (removed ++ release_effect nub m2.interface),
      record m2 { interface = none; initialized = false; finalized = false; running = false },
    )

-- What the framework answers while the manager is set up.
pub record InitReplies : Type 0 where
  pub callback_reply : ℕ
  pub isoch_reply : ℕ
  pub new_pool : Option ℕ
  pub new_remote : Option ℕ

unfoldable pub setup_dispatchers : PortManager → ℕ → ℕ → Done
setup_dispatchers m callback_reply isoch_reply = elim m.interface [
  | none ↦ record { result = unexpected not_ready; effects = []; manager = m }
  | some h ↦
      if not (callback_reply == 0)
      then record { result = unexpected (returned callback_reply); effects = []; manager = m }
      else if not (isoch_reply == 0)
      then record {
        result = unexpected (returned isoch_reply);
        effects = acquired callback_dispatcher h ∷ released callback_dispatcher h ∷ [];
        manager = m;
      }
      else record {
        result = value tt;
        effects = acquired callback_dispatcher h ∷ acquired isoch_dispatcher h ∷ [];
        manager = record m { dispatchers_added = true };
      }
]

unfoldable pub setup_nu_dcl_pool : PortManager → Option ℕ → Done
setup_nu_dcl_pool m new = elim m.interface [
  | none ↦ record { result = unexpected not_ready; effects = []; manager = m }
  | some h ↦ elim new [
    | none ↦ record {
      result = unexpected no_memory;
      effects = [];
      manager = record m { nu_dcl_pool = none };
    }
    | some p ↦ record {
      result = value tt;
      effects = acquired pool_object p ∷ [];
      manager = record m { nu_dcl_pool = some p };
    }
  ]
]

unfoldable pub create_remote_port : PortManager → Option ℕ → Done
create_remote_port m new = elim m.interface [
  | none ↦ record { result = unexpected not_ready; effects = []; manager = m }
  | some h ↦ elim new [
    | none ↦ record {
      result = unexpected no_memory;
      effects = [];
      manager = record m { remote_port = none };
    }
    | some r ↦ record {
      result = value tt;
      effects = acquired remote_object r ∷ set_port_handlers r ∷ [];
      manager = record m { remote_port = some r };
    }
  ]
]

-- The pool and the dispatchers are given back.
unfoldable pub undo_pool : PortManager → List PortEffect × PortManager
unfolding cleanup_dispatchers
undo_pool m =
    let (removed, m') = cleanup_dispatchers (record m { nu_dcl_pool = none }) in
    (release_effect pool_object m.nu_dcl_pool ++ removed, m')

abbrev pub mark_initialized : PortManager → Done
mark_initialized m = finished (record m { initialized = true })

unfoldable pub add_remote_port : Option ℕ → PortManager → Done
unfolding create_remote_port undo_pool
add_remote_port new m = next_step (or_else (create_remote_port m new) undo_pool) mark_initialized

unfoldable pub add_pool : InitReplies → PortManager → Done
unfolding setup_nu_dcl_pool cleanup_dispatchers add_remote_port
add_pool r m =
    next_step (or_else (setup_nu_dcl_pool m r.new_pool) cleanup_dispatchers)
      (add_remote_port r.new_remote)

unfoldable pub initialize : PortManager → InitReplies → Done
unfolding setup_dispatchers add_pool
initialize m r =
    if m.initialized
    then record { result = unexpected busy; effects = []; manager = m }
    else elim m.interface [
      | none ↦ record { result = unexpected bad_argument; effects = []; manager = m }
      | some h ↦ next_step (setup_dispatchers m r.callback_reply r.isoch_reply) (add_pool r)
    ]
