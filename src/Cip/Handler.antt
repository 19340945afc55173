-- ===== src/Cip/Handler.antt =====
-- include/Isoch/utils/CIPHeaderHandler.hpp and src/Isoch/utils/CIPHeaderHandler.cpp. Logging is left
-- out. `baseTicks_` is kept, though nothing reads it.
use fire_wire_audio.Prelude.{
  ℕ, ◌+◌, ◌-◌, ◌*◌, ◌/◌, ◌%◌, ◌^◌, ◌<◌, Bool, true, false, leb, ◌==◌, if◌then◌else◌,
}
use fire_wire_audio.Syt.{ticks_per_cycle, base_ticks_44k, base_ticks_48k, bump}

pub record Handler : Type 0 where
  pub syt_offset : ℕ
  pub syt_phase : ℕ
  pub dbc_count : ℕ
  pub was_no_data : Bool
  pub first_callback_occurred : Bool
  pub sample_rate : ℕ
  pub base_ticks : ℕ

pub record CipUpdateParams : Type 0 where
  pub is_no_data : Bool
  pub previous_no_data : Bool
  pub dbc : ℕ
  pub syt : ℕ

pub record CipHeader : Type 0 where
  pub sid : ℕ
  pub dbs : ℕ
  pub fmt : ℕ
  pub fdf : ℕ
  pub syt : ℕ
  pub dbc : ℕ
  pub fn : ℕ
  pub qpc : ℕ
  pub sph : ℕ

abbrev pub fresh : Handler
fresh = record {
  syt_offset = 0;
  syt_phase = 0;
  dbc_count = 0;
  was_no_data = true;
  first_callback_occurred = false;
  sample_rate = 48000;
  base_ticks = base_ticks_48k;
}

-- A cycle time has 3 of its 7 bits of seconds read, then 13 bits of cycles. The product is below
-- 2^32: at most 64191 * 3072.
unfoldable pub initialize_transfer_delay : ℕ → Handler → Handler
initialize_transfer_delay now h = record h {
  syt_offset =
      ((now / 2 ^ 25 % 2 ^ 3 * 8000 + now / 2 ^ 12 % 2 ^ 13) * ticks_per_cycle)
      % (ticks_per_cycle * 8000);
}

unfoldable pub initialize : ℕ → Handler → Handler
unfolding initialize_transfer_delay
initialize now h = record (initialize_transfer_delay now h) {
  was_no_data = true;
  dbc_count = 0;
  first_callback_occurred = false;
}

unfoldable pub handle_44100_mode : Handler → Handler
handle_44100_mode h =
    let t = bump 147 (record { offset = h.syt_offset; phase = h.syt_phase }) in
    record h { syt_offset = t.offset; syt_phase = t.phase }

unfoldable pub handle_48000_mode : Handler → Handler
handle_48000_mode h = record h { syt_offset = h.syt_offset + base_ticks_48k }

unfoldable pub update_syt_offset : Handler → Handler
unfolding handle_44100_mode handle_48000_mode
update_syt_offset h =
    if leb ticks_per_cycle h.syt_offset
    then record h { syt_offset = h.syt_offset - ticks_per_cycle }
    else if h.sample_rate == 44100
    then handle_44100_mode h
    else handle_48000_mode h

-- The part of `calculatePacketParams` after the offset has moved.
unfoldable pub packet_params : Handler → CipUpdateParams × Handler
packet_params h =
    if leb ticks_per_cycle h.syt_offset
    then (
      record {
        is_no_data = true;
        previous_no_data = h.was_no_data;
        dbc = h.dbc_count;
        syt = 0xffff;
      },
      record h { was_no_data = true },
    )
    else (
      record {
        is_no_data = false;
        previous_no_data = h.was_no_data;
        dbc = h.dbc_count;
        syt = h.syt_offset;
      },
      record h { was_no_data = false; dbc_count = (h.dbc_count + 8) % 2 ^ 8 },
    )

unfoldable pub calculate_packet_params : Handler → CipUpdateParams × Handler
unfolding packet_params
calculate_packet_params h =
    if h.first_callback_occurred then packet_params (update_syt_offset h) else (
      record {
        is_no_data = true;
        previous_no_data = h.was_no_data;
        dbc = h.dbc_count;
        syt = 0xffff;
      },
      h,
    )

-- The node number, the parameters and the rate make the header; both branches of the source's
-- choice of the block counter are the same.
unfoldable pub update_cip_header : Handler → ℕ → CipUpdateParams → CipHeader
update_cip_header h node_id p = record {
  sid = node_id % 2 ^ 6;
  dbs = 2;
  fmt = 0x10;
  fdf = if p.is_no_data then 0xff else if h.sample_rate == 44100 then 0x00 else 0x02;
  syt = if p.is_no_data then 0xffff else p.syt % 2 ^ 12;
  dbc = p.dbc % 2 ^ 8;
  fn = 0;
  qpc = 0;
  sph = 0;
}

unfoldable pub set_sample_rate : ℕ → Handler → Handler
set_sample_rate rate h = record h {
  sample_rate = rate;
  base_ticks = if rate == 44100 then base_ticks_44k else base_ticks_48k;
}

unfoldable pub set_first_callback_occurred : Bool → Handler → Handler
set_first_callback_occurred value h = record h { first_callback_occurred = value }

-- What the fields of a handler in use are: an offset that two calls bring into the cycle, a phase
-- below 147 and a block counter of 8 bits.
pub record IsTimed (h : Handler) : Type 0 where
  pub near : h.syt_offset < 2 * ticks_per_cycle
  pub phase_in : h.syt_phase < 147
  pub dbc_in : h.dbc_count < 2 ^ 8
