-- ===== src/Cip/Processor.antt =====
-- src/Isoch/core/IsochPacketProcessor.cpp, with its header: the receiver's view of a packet stream.
-- The logging is left out. The client's callback is a list of events. A sample keeps its sign
-- extended 24 bits; the source divides it by 8388607 in floating point when it stores it. The isoch
-- header is only read for the log, so only its presence counts.
use fire_wire_audio.Prelude.{
  ℕ, zero, suc, ◌+◌, ◌-◌, ◌*◌, ◌/◌, ◌%◌, ◌^◌, Bool, true, false, not, ◌&&◌, List, [], ◌∷◌, ◌++◌,
  Option, some, ltb, ◌==◌, if◌then◌else◌, get_or, length,
}
use fire_wire_audio.Prelude.Int.{ℤ, pos, negsuc}

pub record Processor : Type 0 where
  pub expected_dbc : ℕ
  pub dbc_initialized : Bool
  pub current_abs_sample_index : ℕ
  pub sample_index_initialized : Bool
  pub last_packet_num_data_blocks : ℕ
  pub last_packet_was_no_data : Bool

abbrev pub fresh : Processor
fresh = record {
  expected_dbc = 0;
  dbc_initialized = false;
  current_abs_sample_index = 0;
  sample_index_initialized = false;
  last_packet_num_data_blocks = 0;
  last_packet_was_no_data = false;
}

-- The fields of the two CIP quadlets that the processor uses.
pub record Cip : Type 0 where
  pub dbs : ℕ
  pub dbc : ℕ
  pub fmt : ℕ
  pub fdf : ℕ
  pub syt : ℕ

pub record ProcessedSample : Type 0 where
  pub left : ℤ
  pub right : ℤ
  pub absolute_index : ℕ

pub record PacketTimingInfo : Type 0 where
  pub fw_timestamp : ℕ
  pub syt : ℕ
  pub first_dbc : ℕ
  pub num_samples_in_packet : ℕ
  pub fdf : ℕ
  pub sfc : ℕ
  pub first_abs_sample_index : ℕ

pub record Event : Type 0 where
  pub samples : List ProcessedSample
  pub timing : PacketTimingInfo

pub data Outcome : Type 0 where
  ok bad_argument : Outcome

-- Four bytes from `i` on, the first the most significant.
unfoldable pub quadlet : List ℕ → ℕ → ℕ
quadlet bytes i =
    get_or bytes i 0 * 2 ^ 24
    + get_or bytes (i + 1) 0 * 2 ^ 16
    + get_or bytes (i + 2) 0 * 2 ^ 8
    + get_or bytes (i + 3) 0

unfoldable pub parse_cip : List ℕ → Cip
unfolding quadlet
parse_cip bytes = record {
  dbs = quadlet bytes 0 / 2 ^ 16 % 2 ^ 8;
  dbc = quadlet bytes 0 % 2 ^ 8;
  fmt = quadlet bytes 4 / 2 ^ 24 % 2 ^ 6;
  fdf = quadlet bytes 4 / 2 ^ 16 % 2 ^ 8;
  syt = quadlet bytes 4 % 2 ^ 16;
}

abbrev pub is_no_data : Cip → Bool
is_no_data c = c.fdf == 0xff

-- Whole data blocks in `len` bytes; a block has `dbs` quadlets.
unfoldable pub num_data_blocks : ℕ → ℕ → ℕ
num_data_blocks dbs len = if dbs == 0 then 0 else (len / (dbs * 4)) % 2 ^ 32

unfoldable pub next_expected_dbc : Processor → ℕ
next_expected_dbc p =
    if p.last_packet_was_no_data
    then p.expected_dbc
    else (p.expected_dbc + p.last_packet_num_data_blocks) % 2 ^ 8

-- Is the packet's counter the one that is expected?
unfoldable pub is_continuous : Processor → Cip → Bool
is_continuous p c = c.dbc == next_expected_dbc p

-- The frames that a jump of the counter skips: only a jump forward, by less than half its range.
unfoldable pub lost_frames : Processor → Cip → ℕ
lost_frames p c =
    let diff = (c.dbc + 2 ^ 8 - next_expected_dbc p) % 2 ^ 8 in
    if p.sample_index_initialized && not (is_no_data c) && ltb 0 diff && ltb diff 128
    then (diff * c.dbs) / 2
    else 0

-- What a packet does to the tracking, the index of its first frame, and whether the client is told
-- to start its clock.
pub record Tracked : Type 0 where
  pub processor : Processor
  pub start : ℕ
  pub starts_clock : Bool

unfoldable pub track_first : Processor → Cip → ℕ → Tracked
track_first p c blocks =
    if is_no_data c
    then record {
      processor = record p { last_packet_was_no_data = true };
      start = 0;
      starts_clock = false;
    }
    else record {
      processor = record p {
        expected_dbc = c.dbc;
        last_packet_num_data_blocks = blocks;
        last_packet_was_no_data = false;
        dbc_initialized = true;
        current_abs_sample_index =
            if p.sample_index_initialized then p.current_abs_sample_index else 0;
        sample_index_initialized = true;
      };
      start = 0;
      starts_clock = not p.sample_index_initialized && not (c.syt == 0xffff);
    }

unfoldable pub track_next : Processor → Cip → ℕ → Tracked
track_next p c blocks =
    let index = (p.current_abs_sample_index + lost_frames p c) % 2 ^ 64 in
    let begins = not p.sample_index_initialized && not (is_no_data c) in
    record {
      processor = record p {
        expected_dbc = c.dbc;
        last_packet_num_data_blocks = blocks;
        last_packet_was_no_data = is_no_data c;
        current_abs_sample_index = if begins then 0 else index;
        sample_index_initialized = if begins then true else p.sample_index_initialized;
      };
      start = if begins then 0 else index;
      starts_clock = begins && not (c.syt == 0xffff);
    }

unfoldable pub track : Processor → Cip → ℕ → Tracked
track p c blocks = if p.dbc_initialized then track_next p c blocks else track_first p c blocks

unfoldable pub sign_extend_24 : ℕ → ℤ
sign_extend_24 w = if ltb w (2 ^ 23) then pos w else negsuc (2 ^ 24 - w - 1)

unfoldable pub sample_at : List ℕ → ℕ → ℤ
unfolding quadlet sign_extend_24
sample_at packet i = sign_extend_24 (quadlet packet i % 2 ^ 24)

-- The stereo pairs of one block from pair `i` on, `pairs` of them; a last odd sample is left out.
unfoldable pub block_frames : List ℕ → ℕ → ℕ → ℕ → ℕ → ℕ → List ProcessedSample
block_frames packet dbs start block zero i = []
block_frames packet dbs start block (suc pairs) i =
    record {
      left = sample_at packet (block * (dbs * 4) + 2 * i * 4);
      right = sample_at packet (block * (dbs * 4) + (2 * i + 1) * 4);
      absolute_index = start + (block * dbs + 2 * i) / 2;
    }
    ∷ block_frames packet dbs start block pairs (i + 1)

-- The frames of `blocks` blocks from `block` on.
unfoldable pub packet_frames : List ℕ → ℕ → ℕ → ℕ → ℕ → List ProcessedSample
packet_frames packet dbs start zero block = []
packet_frames packet dbs start (suc blocks) block =
    block_frames packet dbs start block (dbs / 2) 0
    ++ packet_frames packet dbs start blocks (block + 1)

abbrev pub timing_info : ℕ → Cip → ℕ → ℕ → PacketTimingInfo
timing_info stamp c samples start = record {
  fw_timestamp = stamp;
  syt = c.syt;
  first_dbc = c.dbc;
  num_samples_in_packet = samples;
  fdf = c.fdf;
  sfc = c.fdf % 2 ^ 3;
  first_abs_sample_index = start;
}

-- The frames come out and the index moves on, for a packet with data.
unfoldable pub deliver : Bool → Tracked → Cip → ℕ → List ℕ → ℕ → List Event × Processor
deliver has_callback t c blocks packet stamp =
    let total = (blocks * c.dbs) % 2 ^ 32 in
    let with_data = not (is_no_data c) && ltb 0 total in
    let started =
      if has_callback && t.starts_clock
      then record { samples = []; timing = timing_info stamp c 0 0 } ∷ []
      else [] in
    let delivered =
      if has_callback
      then record {
        samples = if with_data then packet_frames packet c.dbs t.start blocks 0 else [];
        timing = timing_info stamp c total t.start;
      }
        ∷ []
      else [] in
    (
      started ++ delivered,
      record t.processor {
        current_abs_sample_index =
            if with_data
            then (t.processor.current_abs_sample_index + total / 2) % 2 ^ 64
            else t.processor.current_abs_sample_index;
      },
    )

-- A packet after its headers are read. Another format than AMDTP is passed over.
unfoldable pub process_cip : Bool → Processor → Cip → List ℕ → ℕ → List Event × Processor
process_cip has_callback p c packet stamp =
    if c.fmt == 0x10
    then deliver has_callback (track p c (num_data_blocks c.dbs (length packet))) c
        (num_data_blocks c.dbs (length packet)) packet stamp
    else ([], p)

-- `none` is a null pointer.
unfoldable pub process_packet :
    Bool
    → Processor
    → Option (List ℕ)
    → Option (List ℕ)
    → Option (List ℕ)
    → ℕ
    → Outcome × List Event × Processor
process_packet has_callback p (some isoch) (some cip) (some packet) stamp =
    let (events, p') = process_cip has_callback p (parse_cip cip) packet stamp in (ok, events, p')
process_packet has_callback p _ _ _ stamp = (bad_argument, [], p)

unfoldable pub handle_overrun : Processor → Processor
handle_overrun p = record p {
  dbc_initialized = false;
  sample_index_initialized = false;
  last_packet_num_data_blocks = 0;
  last_packet_was_no_data = false;
  current_abs_sample_index = 0;
}
