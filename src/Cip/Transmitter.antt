-- ===== src/Cip/Transmitter.antt =====
-- The packet header state of src/Isoch/core/AmdtpTransmitter.cpp (`initializeCIPState`,
-- `prepareCIPHeader`), with include/Isoch/core/AmdtpTransmitter.hpp for its constants and
-- include/Isoch/core/TransmitterTypes.hpp for the header. The pointer checks are left out: the
-- managers are there. The configured rate is a `double` that is compared with whole numbers; it is
-- a number of hertz here. The node number is read and not used by the source.
use fire_wire_audio.Prelude.{
  ℕ, ◌+◌, ◌*◌, ◌/◌, ◌%◌, ◌^◌, Bool, true, false, List, [], ◌∷◌, leb, ◌==◌, if◌then◌else◌,
}
use fire_wire_audio.Syt.{Syt, ticks_per_cycle, update}

abbrev pub syt_phase_reset : ℕ
syt_phase_reset = 1470

pub record CipState : Type 0 where
  pub dbc_count : ℕ
  pub was_no_data : Bool
  pub syt : Syt
  pub first_dcl_callback_occurred : Bool
  pub expected_time_stamp_cycle : ℕ

-- The packed header, its `syt` in the byte order of the bus.
pub record CipHeader : Type 0 where
  pub sid_byte : ℕ
  pub dbs : ℕ
  pub fn_qpc_sph_rsv : ℕ
  pub dbc : ℕ
  pub fmt_eoh1 : ℕ
  pub fdf : ℕ
  pub syt : ℕ

-- The header as the eight bytes that go out.
unfoldable pub header_bytes : CipHeader → List ℕ
header_bytes h =
    h.sid_byte
    ∷ h.dbs
    ∷ h.fn_qpc_sph_rsv
    ∷ h.dbc
    ∷ h.fmt_eoh1
    ∷ h.fdf
    ∷ (h.syt / 2 ^ 8)
    ∷ (h.syt % 2 ^ 8)
    ∷ []

unfoldable pub initialize_cip_state : CipState
initialize_cip_state = record {
  dbc_count = 0;
  was_no_data = true;
  syt = record { offset = ticks_per_cycle; phase = 0 };
  first_dcl_callback_occurred = false;
  expected_time_stamp_cycle = 0;
}

unfoldable pub sfc_of_rate : ℕ → ℕ
sfc_of_rate rate =
    if rate == 44100
    then 0x01
    else if rate == 48000
    then 0x02
    else if rate == 88200
    then 0x03
    else if rate == 96000
    then 0x04
    else if rate == 176400
    then 0x05
    else if rate == 192000
    then 0x06
    else 0x02

-- The clock's step, and whether the packet carries no data.
unfoldable pub step_syt : CipState → Bool × Syt
step_syt c =
    if c.first_dcl_callback_occurred
    then (leb ticks_per_cycle (update syt_phase_reset c.syt).offset, update syt_phase_reset c.syt)
    else (true, c.syt)

-- The fields that depend on the packet's kind. `payload` is the audio payload of a packet in bytes.
unfoldable pub next_dbc : ℕ → CipState → Bool → ℕ
next_dbc payload c no_data =
    if no_data
    then c.dbc_count
    else if c.was_no_data
    then c.dbc_count
    else (c.dbc_count + payload / 8 % 2 ^ 8) % 2 ^ 8

unfoldable pub prepare_cip_header : ℕ → ℕ → CipState → CipHeader × CipState
unfolding step_syt next_dbc
prepare_cip_header rate payload c =
    let (no_data, syt) = step_syt c in
    let dbc = next_dbc payload c no_data in
    (
      record {
        sid_byte = 0;
        dbs = 2;
        fn_qpc_sph_rsv = 0;
        dbc = dbc;
        fmt_eoh1 = 0x10 * 2 ^ 2 + 0x01;
        fdf = if no_data then 0xff else sfc_of_rate rate;
        syt = if no_data then 0xffff else syt.offset;
      },
      record c { dbc_count = dbc; was_no_data = no_data; syt = syt },
    )
