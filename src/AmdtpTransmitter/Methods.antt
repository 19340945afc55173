-- ===== src/AmdtpTransmitter/Methods.antt =====
-- src/Isoch/core/AmdtpTransmitter.cpp: starting, stopping, the completion and overrun callbacks, and
-- the transmitter's life. The replies of the framework are arguments. Where a method takes the state
-- mutex while its thread holds it, it waits for ever.
use fire_wire_audio.Prelude.{
  ℕ, ◌+◌, ◌*◌, ◌%◌, ◌^◌, Bool, true, false, not, ◌||◌, Option, none, some, List, [], ◌∷◌, ◌++◌, map,
  ◌==◌, if◌then◌else◌,
}
use fire_wire_audio.Prelude.Expected.{
  Expected, value, unexpected, not_ready, busy, from_io_return, internal_error,
}
use fire_wire_audio.Transport
use fire_wire_audio.Transport.{Transport, ChannelCall}
use fire_wire_audio.Transmit.Dcl.{Outcome, completed, division_by_zero, and_then}
use fire_wire_audio.Transmit.Updates.{fixup_dcl_jump_targets, notify_segment_update}
use fire_wire_audio.PortChannel.Setup
use fire_wire_audio.Provider.{push_audio_data}
use fire_wire_audio.Cip.Transmitter.{initialize_cip_state}
use fire_wire_audio.AmdtpTransmitter.{
  AmdtpTransmitter, Parts, Event, dcl_called, channel_called, client_told, stream_started,
  stream_stopped, overrun_error, generic_error, notify_message, Streams, initial_packets,
  filled_packets,
}

pub record Returned : Type 0 where
  pub result : Expected (Unit {0})
  pub events : List Event
  pub transmitter : AmdtpTransmitter

abbrev pub is_some : {A : Type 0} → Option A → Bool
is_some none = false
is_some (some a) = true

-- What the framework answers when a stream starts.
pub record StartReplies : Type 0 where
  pub branch_reply : ℕ
  pub notify_reply : ℕ
  pub allocated : Bool
  pub started : Bool
  pub code : ℕ

-- The transmitter with what its streams have become.
abbrev pub with_streams : AmdtpTransmitter → Parts → Streams → AmdtpTransmitter
with_streams t parts s = record t {
  parts = some (record parts { provider = s.provider });
  cip = s.cip;
}

-- Step 4: the transport, and step 5 when it has started.
unfoldable pub start_transport : AmdtpTransmitter → Parts → List Event → StartReplies → Returned
start_transport t parts events r = elim parts.port.isoch_channel [
  | none ↦ record { result = unexpected not_ready; events = events; transmitter = t }
  | some channel ↦
      let call = Transport.start parts.transport r.allocated r.started r.code in
      let t' = record t { parts = some (record parts { transport = call.transport }) } in
      let told = events ++ map channel_called call.calls in
      elim call.result [
        | unexpected e ↦ record { result = unexpected e; events = told; transmitter = t' }
        | value u ↦ record {
          result = value tt;
          events =
              told ++ (if t.has_message_callback then client_told stream_started 0 0 ∷ [] else []);
          transmitter = record t' {
            running = true;
            cip = record t.cip { first_dcl_callback_occurred = false };
          };
        }
      ]
]

-- Step 3: the last DCL's jump.
unfoldable pub start_program : AmdtpTransmitter → Parts → List Event → StartReplies → Returned
unfolding start_transport
start_program t parts events r = elim parts.port.local_port [
  | none ↦ record { result = unexpected not_ready; events = events; transmitter = t }
  | some port ↦
      let (reply, calls) = fixup_dcl_jump_targets parts.dcl true r.branch_reply r.notify_reply in
      let told = events ++ map dcl_called calls in
      elim reply [
        | unexpected e ↦ record { result = unexpected e; events = told; transmitter = t }
        | value u ↦ start_transport t parts told r
      ]
]

-- Steps 1 and 2.
unfoldable pub start_with_parts : AmdtpTransmitter → Parts → StartReplies → Returned
unfolding initial_packets start_program
start_with_parts t parts r =
    let total = t.config.num_groups * t.config.packets_per_group % 2 ^ 32 in
    let first : Streams = record { provider = parts.provider; cip = initialize_cip_state } in
    let done = initial_packets t parts total 0 first in
    let t' = with_streams t parts done.streams in
    if done.complete
    then start_program t' (record parts { provider = done.streams.provider }) done.events r
    else record {
      result = unexpected (from_io_return internal_error);
      events = done.events;
      transmitter = t';
    }

unfoldable pub start_transmit : AmdtpTransmitter → StartReplies → Returned
unfolding start_with_parts
start_transmit t r =
    if not t.initialized
    then record { result = unexpected not_ready; events = []; transmitter = t }
    else if t.running
    then record { result = value tt; events = []; transmitter = t }
    else elim t.parts [
      | none ↦ record { result = unexpected not_ready; events = []; transmitter = t }
      | some parts ↦ start_with_parts t parts r
    ]

-- What the framework answers when a stream stops: the channel's reply, and when its callback comes.
pub record StopReplies : Type 0 where
  pub stops : Bool
  pub arrives : ℕ → Bool

-- The channel is stopped, and then the client is told with the state mutex held.
unfoldable pub stop_transport : AmdtpTransmitter → Parts → StopReplies → Outcome Returned
unfolding notify_message
stop_transport t parts r =
    let call = (Transport.stop parts.transport r.stops r.arrives).outcome in
    and_then (notify_message true t stream_stopped 0 0) (λ message. completed (record {
      result = call.result;
      events = map channel_called call.calls ++ message;
      transmitter = record t {
        running = false;
        parts = some (record parts { transport = call.transport });
      };
    }))

unfoldable pub stop_transmit : AmdtpTransmitter → StopReplies → Outcome Returned
unfolding stop_transport
stop_transmit t r =
    if not t.initialized || not t.running
    then completed (record { result = value tt; events = []; transmitter = t })
    else elim t.parts [
      | none ↦ completed (record {
        result = unexpected not_ready;
        events = [];
        transmitter = record t { running = false };
      })
      | some parts ↦ elim parts.port.isoch_channel [
        | none ↦ completed (record {
          result = unexpected not_ready;
          events = [];
          transmitter = record t { running = true };
        })
        | some channel ↦ stop_transport t parts r
      ]
    ]

-- The result of the stop is only logged.
unfoldable pub handle_dcl_overrun : AmdtpTransmitter → StopReplies → Outcome Returned
unfolding stop_transmit notify_message
handle_dcl_overrun t r =
    if not t.running
    then completed (record { result = value tt; events = []; transmitter = t })
    else and_then (notify_message false t overrun_error 0 0) (λ told.
      and_then (stop_transmit t r) (λ c.
        completed
          (record { result = value tt; events = told ++ c.events; transmitter = c.transmitter })))

-- A manager is missing: the stream is stopped, and the client told.
unfoldable pub stop_on_error : AmdtpTransmitter → StopReplies → Outcome Returned
unfolding stop_transmit notify_message
stop_on_error t r = and_then (stop_transmit t r) (λ c.
    and_then (notify_message false c.transmitter generic_error 0 0) (λ told.
      completed
        (record { result = value tt; events = c.events ++ told; transmitter = c.transmitter })))

-- The pool's reply for each packet, the port's, and those for a stop.
pub record CompletionReplies : Type 0 where
  pub pool_reply : ℕ → ℕ
  pub port_reply : ℕ
  pub stopping : StopReplies

-- Steps 2 to 5, for the group after the completed one. The group's time stamp is read and not used.
unfoldable pub fill_group : AmdtpTransmitter → Parts → ℕ → CompletionReplies → Returned
unfolding filled_packets
fill_group t parts g r =
    let first : Streams = record {
      provider = parts.provider;
      cip = record t.cip { first_dcl_callback_occurred = true };
    } in
    let (events, s) = filled_packets t parts r.pool_reply g t.config.packets_per_group 0 first in
    let (reply, calls) = notify_segment_update parts.dcl true g r.port_reply in
    record {
      result = value tt;
      events = events ++ map dcl_called calls;
      transmitter = with_streams t parts s;
    }

unfoldable pub handle_dcl_complete : AmdtpTransmitter → ℕ → CompletionReplies → Outcome Returned
unfolding fill_group stop_on_error
handle_dcl_complete t completed_group r =
    if not t.running
    then completed (record { result = value tt; events = []; transmitter = t })
    else elim t.parts [
      | none ↦ stop_on_error t r.stopping
      | some parts ↦ elim parts.port.local_port [
        | none ↦ stop_on_error t r.stopping
        | some port ↦
            if t.config.num_groups == 0
            then division_by_zero
            else completed
                (fill_group t parts ((completed_group + 1) % 2 ^ 32 % t.config.num_groups) r)
      ]
    ]

-- `cleanup`, and the destructor, which stops a running stream first.
unfoldable pub cleaned_up : AmdtpTransmitter → AmdtpTransmitter
cleaned_up t = record t { parts = none; initialized = false; running = false }

unfoldable pub destroy : AmdtpTransmitter → StopReplies → Outcome Returned
unfolding cleaned_up stop_transmit
destroy t r =
    if t.running
    then and_then (stop_transmit t r)
        (λ c. completed (record c { transmitter = cleaned_up c.transmitter }))
    else completed (record { result = value tt; events = []; transmitter = cleaned_up t })

unfoldable pub configure : AmdtpTransmitter → ℕ → ℕ → Expected (Unit {0}) × AmdtpTransmitter
configure t speed wanted =
    if not t.initialized
    then (unexpected not_ready, t)
    else if t.running
    then (unexpected busy, t)
    else elim t.parts [
      | none ↦ (unexpected not_ready, t)
      | some parts ↦
          let d = Setup.configure parts.port speed wanted in
          (
            d.result,
            record t {
              config = record t.config { initial_channel = wanted };
              initial_speed = speed;
              parts = some (record parts { port = d.manager });
            },
          )
    ]

unfoldable pub push_audio : AmdtpTransmitter → Option (List ℕ) → Bool × AmdtpTransmitter
push_audio t src = if not t.initialized then (false, t) else elim t.parts [
  | none ↦ (false, t)
  | some parts ↦
      let (taken, provider) = push_audio_data parts.provider src in
      (taken, record t { parts = some (record parts { provider = provider }) })
]

unfoldable pub set_message_callback : AmdtpTransmitter → Bool → AmdtpTransmitter
set_message_callback t has = record t { has_message_callback = has }
