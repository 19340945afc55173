-- ===== src/AmdtpTransmitter/Ready.antt =====
-- What a transmitter's managers are after `initialize`, when the system and the framework give what
-- they are asked for.
use fire_wire_audio.Prelude.{
  ℕ, ◌+◌, ◌*◌, ◌%◌, ◌^◌, ◌≤◌, ◌<◌, ◌≡◌, ap, ◌∙◌, true, Option, some, List, [], ◌∷◌, arith,
}
use fire_wire_audio.Prelude.Expected.{value}
use native.Mathlib.Nat.{mod-eq_of_lt}
use fire_wire_audio.Ring
use fire_wire_audio.Ring.Valid.{create-IsValid}
use fire_wire_audio.Transmit.{TransmitterConfig}
use fire_wire_audio.Transmit.Buffers.{TransmitBuffers}
use fire_wire_audio.Transmit.Dcl.{
  DclManager, Building, VirtualRange, PacketPointers, packet_pointers, audio_data_ptr,
  set_dcl_ranges, notify_modified,
}
use fire_wire_audio.Transmit.Updates.{
  update_dcl_packet, notify_segment_update, notify_dcl_updates, get_dcl_ref, fixup_dcl_jump_targets,
}
use fire_wire_audio.Transmit.Slots.{packets_of, packet_in}
use fire_wire_audio.Transmit.Packets.{IsReady, IsBuilt}
use fire_wire_audio.Transmit.Whole.{built_of, fixes}
use fire_wire_audio.Transmit.Segments.{dcls_from, updated, told}
use fire_wire_audio.Provider
use fire_wire_audio.Provider.Calls.{IsBalanced}
use fire_wire_audio.AmdtpTransmitter.{packet_slot}
use fire_wire_audio.AmdtpTransmitter.Dma.{Areas, slot_at}

pub slot_found :
    (m : TransmitBuffers) (i g p : ℕ) (at : PacketPointers)
    → packet_pointers m i g p ≡ some at
    → 0 < m.client_audio_area
    → 0 < m.config.client_buffer_size
    → packet_slot m g p i
      ≡ some (record {
        isoch_header = at.isoch_header;
        cip_header = at.cip_header;
        audio_data = audio_data_ptr m i;
      })
unfolding packet_slot packet_pointers
slot_found m i g p at found area room = ground arith

-- The program's manager once its callback is set.
abbrev pub with_callback : ℕ → Building → DclManager
with_callback handle b = record (built_of handle b).manager { has_complete_callback = true }

calls_updated :
    (d : DclManager) (g p reply : ℕ) (ranges : List VirtualRange)
    → (update_dcl_packet d g p ranges reply).1 ≡ (update_dcl_packet d g p ranges 0).1
unfolding update_dcl_packet
calls_updated d g p reply ranges = ground arith

calls_noticed :
    (d : DclManager) (g reply : ℕ)
    → (notify_segment_update d true g reply).1 ≡ (notify_segment_update d true g 0).1
unfolding notify_segment_update notify_dcl_updates
calls_noticed d g reply = ground arith

module _ (c : TransmitterConfig) (m : TransmitBuffers) (allocate : ℕ → Option ℕ) (dcl : ℕ → ℕ)
    (v : IsReady c m allocate dcl) where
  abbrev pub areas_of : Areas
  areas_of = record {
    audio = m.client_audio_area;
    cip = m.cip_header_area;
    isoch = m.isoch_header_area;
  }

  pub ready_slots :
      (g p : ℕ)
      → 0 < m.client_audio_area
      → audio_data_ptr m (g * c.packets_per_group + p)
        ≡ m.client_audio_area + (g * c.packets_per_group + p) * 64
      → g < c.num_groups
      → p < c.packets_per_group
      → packet_slot m g p ((g * c.packets_per_group + p) % 2 ^ 32)
        ≡ some (slot_at areas_of (g * c.packets_per_group + p))
  ready_slots g p area place hg hp =
      let (index, inside) = packet_in c g p v.sendable hg hp in
      let i = g * c.packets_per_group + p in
      ap (packet_slot m g p) (mod-eq_of_lt (omega (arith, v.sendable.packets_in)))
      ∙ slot_found m _ g p _ (v.found g p hg hp) area v.client
      ∙ ap
          (λ a. some (record {
            isoch_header = m.isoch_header_area + i * 4;
            cip_header = m.cip_header_area + i * 8;
            audio_data = a;
          }))
          place

module _ (c : TransmitterConfig) (m : TransmitBuffers) (allocate : ℕ → Option ℕ) (dcl : ℕ → ℕ)
    (v : IsReady c m allocate dcl) (handle : ℕ) (b : Building)
    (built : IsBuilt c m allocate dcl (packets_of c) b) where
  pub ready_updates :
      (g p reply : ℕ) (ranges : List VirtualRange)
      → g < c.num_groups
      → p < c.packets_per_group
      → (update_dcl_packet (with_callback handle b) g p ranges reply).1
        ≡ set_dcl_ranges (dcl (g * c.packets_per_group + p)) ranges ∷ []
  unfolding update_dcl_packet get_dcl_ref
  ready_updates g p reply ranges hg hp =
      calls_updated (with_callback handle b) g p reply ranges
      ∙ ap (λ r. r.1) (updated c m allocate dcl v b handle g p ranges built hg hp)

  pub ready_notices :
      (g reply : ℕ)
      → g < c.num_groups
      → (notify_segment_update (with_callback handle b) true g reply).1
        ≡ notify_modified (dcls_from dcl (g * c.packets_per_group) c.packets_per_group) ∷ []
  unfolding notify_segment_update
  ready_notices g reply hg =
      calls_noticed (with_callback handle b) g reply
      ∙ ap (λ r. r.1) (told c m allocate dcl v b handle g built hg)

  pub ready_fixup : (fixup_dcl_jump_targets (with_callback handle b) true 0 0).0 ≡ value tt
  unfolding fixup_dcl_jump_targets
  ready_fixup = ap (λ r. r.0) (fixes c m allocate dcl v b handle built)

-- The provider's ring is empty at first.
pub fresh-IsBalanced : (fill size : ℕ) → size ≤ 2 ^ 31 → IsBalanced (Provider.fresh fill size)
unfolding Provider.fresh Provider.reset Ring.reset Ring.create
fresh-IsBalanced fill size h =
    let (valid, room, empty) = create-IsValid fill size h in
    record {
      ring = valid;
      whole = ap (λ n. n % 4) empty;
      balance = ap (λ n. (0 + n) % 2 ^ 64) empty;
    }
