-- ===== src/Cip/Loopback.antt =====
-- One header of each sender, and how the packet processor receives the transmitter's.
use fire_wire_audio.Prelude.{
  ℕ, ◌+◌, ◌%◌, ◌^◌, ◌≤◌, ◌<◌, ◌≡◌, Bool, false, not, List, [], some, if◌then◌else◌, arith,
}
use fire_wire_audio.Syt.Schedule.{update_bound}
use fire_wire_audio.Cip.Handler.{Handler, calculate_packet_params, packet_params, update_syt_offset}
use fire_wire_audio.Cip.Transmitter.{
  CipState, prepare_cip_header, header_bytes, sfc_of_rate, step_syt, next_dbc,
}
use fire_wire_audio.Cip.Processor.{
  Processor, Outcome, is_no_data, next_expected_dbc, is_continuous, process_cip, process_packet,
  parse_cip,
}

update-dbc_count :
    (h : Handler)
    → ((update_syt_offset h).dbc_count ≡ h.dbc_count)
      × ((update_syt_offset h).was_no_data ≡ h.was_no_data)
unfolding update_syt_offset
update-dbc_count h = ground arith

-- What the header of a call says of its counter, and how the counter goes on.
pub params_lem :
    (h : Handler)
    → h.dbc_count < 2 ^ 8
    → let (params, h') = calculate_packet_params h in
      (params.dbc ≡ h.dbc_count)
      × (h'.dbc_count ≡ (h.dbc_count + (if params.is_no_data then 0 else 8)) % 2 ^ 8)
unfolding calculate_packet_params packet_params
params_lem h b = ground (arith, update-dbc_count h)

-- What keeps the transmitter's header fields in their widths.
pub record IsTimed (c : CipState) : Type 0 where
  pub near : c.syt.offset < 6144
  pub counter_in : c.dbc_count < 2 ^ 8

sfc-le : (rate : ℕ) → sfc_of_rate rate ≤ 6
unfolding sfc_of_rate
sfc-le rate = ground arith

step_near : (c : CipState) → IsTimed c → (step_syt c).1.offset < 6144
unfolding step_syt
step_near c v = ground (arith, update_bound 1470 c.syt v.near)

next_dbc-lt :
    (payload : ℕ) (c : CipState) (no_data : Bool) → IsTimed c → next_dbc payload c no_data < 2 ^ 8
unfolding next_dbc
next_dbc-lt payload c no_data v = ground arith

-- Preparing a header keeps the transmitter's fields in their widths.
pub prepare-IsTimed :
    (rate payload : ℕ) (c : CipState) → IsTimed c → IsTimed (prepare_cip_header rate payload c).1
unfolding prepare_cip_header
prepare-IsTimed rate payload c v = record {
  near = step_near c v;
  counter_in = next_dbc-lt payload c (step_syt c).0 v;
}

-- The eight bytes of the transmitter's header, read back.
transmitted_lem :
    (rate payload : ℕ) (c : CipState)
    → IsTimed c
    → let (h, c') = prepare_cip_header rate payload c in
      let r = parse_cip (header_bytes h) in
      (r.fmt ≡ 0x01) × (r.dbs ≡ 2) × (r.dbc ≡ h.dbc) × (is_no_data r ≡ c'.was_no_data)
unfolding prepare_cip_header header_bytes parse_cip
transmitted_lem rate payload c v =
    ground (arith, sfc-le rate, step_near c v, next_dbc-lt payload c (step_syt c).0 v)

-- The packet processor passes over every packet that the transmitter makes, whatever its state: it
-- reads the transmitter's format byte as format 1, not as AMDTP's 16, calls nobody and keeps its
-- own state.
pub transmitter_not_recognised :
    (rate payload : ℕ) (c : CipState) (client : Bool) (p : Processor) (isoch packet : List ℕ)
    (stamp : ℕ)
    → IsTimed c
    → process_packet client p
        (some isoch)
        (some (header_bytes (prepare_cip_header rate payload c).0))
        (some packet)
        stamp
      ≡ (Outcome.ok, [], p)
unfolding process_packet process_cip
transmitter_not_recognised rate payload c client p isoch packet stamp v =
    ground (arith, transmitted_lem rate payload c v)

-- Had it the right format, a processor that has received a packet with eight blocks would find the
-- transmitter's next packet in step just when it carries data: a packet without data repeats the
-- counter of the packet before, where the processor expects it to have moved on by the eight blocks.
pub transmitter-is_continuous :
    (rate : ℕ) (c : CipState) (p : Processor)
    → IsTimed c
    → c.was_no_data ≡ false
    → p.expected_dbc ≡ c.dbc_count
    → p.last_packet_num_data_blocks ≡ 8
    → p.last_packet_was_no_data ≡ false
    → let (h, c') = prepare_cip_header rate 64 c in
      is_continuous p (parse_cip (header_bytes h)) ≡ not c'.was_no_data
unfolding is_continuous next_expected_dbc next_dbc prepare_cip_header
transmitter-is_continuous rate c p v d e b l = ground (arith, transmitted_lem rate 64 c v)
