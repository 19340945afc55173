-- ===== src/Transport.antt =====
-- src/Isoch/core/IsochTransportManager.cpp: starting and stopping the isochronous channel. The
-- channel is IOKit's: its replies are arguments, true for kIOReturnSuccess, and a method returns the
-- calls that it made beside its result. The finalize callback comes from another thread: `arrives n`
-- says whether it has come after n milliseconds of waiting. Both methods hold the state mutex, so a
-- call is one step.
pub mod Protocol
mod Tests
use fire_wire_audio.Prelude.{
  ℕ, zero, suc, ◌+◌, Bool, true, false, ◌||◌, List, [], ◌∷◌, if◌then◌else◌,
}
use fire_wire_audio.Prelude.Expected.{Expected, value, unexpected, busy, not_ready, returned}

pub data State : Type 0 where
  stopped starting running stopping : State

pub record Transport : Type 0 where
  pub state : State
  pub finalize_callback_called : Bool
  pub has_finalize_callback : Bool

-- Calls to the channel, with their replies.
pub data ChannelCall : Type 0 where
  allocate_channel start_channel stop_channel : Bool → ChannelCall
  release_channel : ChannelCall

pub record Called : Type 0 where
  pub result : Expected (Unit {0})
  pub calls : List ChannelCall
  pub transport : Transport

-- The hooks, which do nothing yet.
abbrev pub prepare_start : Expected (Unit {0})
prepare_start = value tt

abbrev pub finish_stop : Expected (Unit {0})
finish_stop = value tt

-- An IOReturn that is not success.
unfoldable pub start_prepared : Transport → Bool → Bool → ℕ → Called
start_prepared t allocated started code =
    if allocated
    then (if started
        then record {
          result = value tt;
          calls = allocate_channel true ∷ start_channel true ∷ [];
          transport = record t { state = running };
        }
        else record {
          result = unexpected (returned code);
          calls = allocate_channel true ∷ start_channel false ∷ release_channel ∷ [];
          transport = record t { state = stopped };
        })
    else record {
      result = unexpected (returned code);
      calls = allocate_channel false ∷ [];
      transport = record t { state = stopped };
    }

unfoldable pub start_from : State → Transport → Bool → Bool → ℕ → Called
unfolding start_prepared
start_from stopped t allocated started code = elim prepare_start [
  | value u ↦
      start_prepared (record t { state = starting; finalize_callback_called = false }) allocated
        started code
  | unexpected e ↦ record {
    result = unexpected e;
    calls = [];
    transport = record t { state = stopped; finalize_callback_called = false };
  }
]
start_from other t allocated started code = record {
  result = unexpected busy;
  calls = [];
  transport = t;
}

unfoldable pub start : Transport → Bool → Bool → ℕ → Called
unfolding start_from
start t allocated started code = start_from t.state t allocated started code

-- The wait for the callback: `left` milliseconds more, from the n-th on. It returns how long it took.
unfoldable pub wait_for_finalize : (ℕ → Bool) → Bool → ℕ → ℕ → ℕ × Bool
wait_for_finalize arrives called zero n = (n, called || arrives n)
wait_for_finalize arrives called (suc left) n =
    let rest = wait_for_finalize arrives called left (suc n) in
    if called || arrives n then (n, true) else rest

abbrev pub max_wait_cycles : ℕ
max_wait_cycles = 100

pub record Stopped : Type 0 where
  pub outcome : Called
  pub wait_count : ℕ

unfoldable pub stop_running : Transport → Bool → (ℕ → Bool) → Stopped
unfolding wait_for_finalize
stop_running t stops arrives =
    let (waited, called) = wait_for_finalize arrives t.finalize_callback_called max_wait_cycles 0 in
    elim finish_stop [
      | value u ↦ record {
        outcome = record {
          result = value tt;
          calls = stop_channel stops ∷ release_channel ∷ [];
          transport = record t { state = stopped; finalize_callback_called = called };
        };
        wait_count = waited;
      }
      | unexpected e ↦ record {
        outcome = record {
          result = unexpected e;
          calls = stop_channel stops ∷ release_channel ∷ [];
          transport = record t { state = stopping };
        };
        wait_count = 0;
      }
    ]

unfoldable pub stop_from : State → Transport → Bool → (ℕ → Bool) → Stopped
unfolding stop_running
stop_from running t stops arrives = stop_running t stops arrives
stop_from other t stops arrives = record {
  outcome = record { result = unexpected not_ready; calls = []; transport = t };
  wait_count = 0;
}

unfoldable pub stop : Transport → Bool → (ℕ → Bool) → Stopped
unfolding stop_from
stop t stops arrives = stop_from t.state t stops arrives

-- The transport, and whether the user's callback is called.
unfoldable pub handle_finalize : Transport → Bool × Transport
handle_finalize t = (t.has_finalize_callback, record t { finalize_callback_called = true })
