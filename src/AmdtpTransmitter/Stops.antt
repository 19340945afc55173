-- ===== src/AmdtpTransmitter/Stops.antt =====
-- No stream that was started can be stopped.
use fire_wire_audio.Prelude.{
  ◌*◌, ◌%◌, ◌^◌, ◌≡◌, Bool, true, false, Option, none, some, List, ◌++◌, map, arith, inl, inr,
  Option-cases,
}
use fire_wire_audio.Prelude.Expected.{value}
use fire_wire_audio.Transmit.Dcl.{self_deadlock}
use fire_wire_audio.Transmit.Updates.{fixup_dcl_jump_targets}
use fire_wire_audio.Cip.Transmitter.{initialize_cip_state}
use fire_wire_audio.AmdtpTransmitter.{
  initial_packets, dcl_called, AmdtpTransmitter, Parts, Event, Streams, notify_message,
}
use fire_wire_audio.AmdtpTransmitter.Methods.{
  StartReplies, StopReplies, start_transport, start_program, start_with_parts, start_transmit,
  stop_transport, stop_transmit, handle_dcl_overrun, destroy, with_streams,
}

abbrev has_channel : Option Parts → Bool
has_channel none = false
has_channel (some parts) = elim parts.port.isoch_channel [ none ↦ false | some c ↦ true ]

-- A transmitter that runs, with its channel.
pub record IsRunning (t : AmdtpTransmitter) : Type 0 where
  pub initialized : t.initialized ≡ true
  pub running : t.running ≡ true
  pub channel : has_channel t.parts ≡ true

transport_started :
    (t : AmdtpTransmitter) (parts : Parts) (events : List Event) (r : StartReplies)
    → t.initialized ≡ true
    → (start_transport t parts events r).result ≡ value tt
    → IsRunning (start_transport t parts events r).transmitter
unfolding start_transport
transport_started t parts events r ready started = ground arith

program_started :
    (t : AmdtpTransmitter) (parts : Parts) (events : List Event) (r : StartReplies)
    → t.initialized ≡ true
    → (start_program t parts events r).result ≡ value tt
    → IsRunning (start_program t parts events r).transmitter
unfolding start_program
program_started t parts events r ready started =
    let (reply, calls) = fixup_dcl_jump_targets parts.dcl true r.branch_reply r.notify_reply in
    ground (arith, transport_started t parts (events ++ map dcl_called calls) r)

with_parts_started :
    (t : AmdtpTransmitter) (parts : Parts) (r : StartReplies)
    → t.initialized ≡ true
    → (start_with_parts t parts r).result ≡ value tt
    → IsRunning (start_with_parts t parts r).transmitter
unfolding start_with_parts
with_parts_started t parts r ready started =
    let total = t.config.num_groups * t.config.packets_per_group % 2 ^ 32 in
    let first : Streams = record { provider = parts.provider; cip = initialize_cip_state } in
    let done = initial_packets t parts total 0 first in
    ground (
      arith,
      program_started (with_streams t parts done.streams)
          (record parts { provider = done.streams.provider }) done.events r ready,
    )

transmit_started :
    (t : AmdtpTransmitter) (r : StartReplies)
    → t.running ≡ false
    → (start_transmit t r).result ≡ value tt
    → IsRunning (start_transmit t r).transmitter
unfolding start_transmit
transmit_started t r still started = elim (Option-cases t.parts) [
  | inl no_parts ↦ ground arith
  | inr (parts, managed) ↦ ground (arith, with_parts_started t parts r)
]

stop_waits :
    (t : AmdtpTransmitter) (r : StopReplies) → IsRunning t → stop_transmit t r ≡ self_deadlock
unfolding stop_transmit stop_transport notify_message
stop_waits t r v = ground (arith, v.initialized, v.running, v.channel)

overrun_waits :
    (t : AmdtpTransmitter) (r : StopReplies) → IsRunning t → handle_dcl_overrun t r ≡ self_deadlock
unfolding handle_dcl_overrun notify_message
overrun_waits t r v = ground (arith, v.running, stop_waits t r v)

destroy_waits : (t : AmdtpTransmitter) (r : StopReplies) → IsRunning t → destroy t r ≡ self_deadlock
unfolding destroy
destroy_waits t r v = ground (arith, v.running, stop_waits t r v)

-- Once a stopped transmitter has been started with success, whatever the channel then replies, a stop
-- of it never returns: with the state mutex held it calls the method that takes that mutex to tell the
-- client. So does neither the handling of an overrun nor the destructor, which stop the stream.
pub started_never_stops :
    (t : AmdtpTransmitter) (r : StartReplies) (s : StopReplies)
    → t.running ≡ false
    → (start_transmit t r).result ≡ value tt
    → let t' = (start_transmit t r).transmitter in
      (stop_transmit t' s ≡ self_deadlock)
      × (handle_dcl_overrun t' s ≡ self_deadlock)
      × (destroy t' s ≡ self_deadlock)
started_never_stops t r s still started =
    let v = transmit_started t r still started in
    let t' = (start_transmit t r).transmitter in
    (stop_waits t' s v, overrun_waits t' s v, destroy_waits t' s v)
