-- ===== src/PortChannel/Leak.antt =====
-- A channel whose ends were refused stays with the manager, and the next setup forgets it.
use fire_wire_audio.Prelude.{ℕ, ◌%◌, ◌≡◌, ◌≢◌, true, Option, none, some, ◌++◌, arith, ◌<◌}
use fire_wire_audio.Prelude.Expected.{value, unexpected, returned}
use fire_wire_audio.PortChannel.{PortManager, channel_object, reset}
use fire_wire_audio.PortChannel.Setup.{SetupReplies, setup_local_port_and_channel}
use fire_wire_audio.PortChannel.Balance.{
  times_acquired, times_released, acquired-append, released-append,
}

-- What the framework gives: both ports' ends are accepted or the code says why not.
abbrev pub gives : ℕ → ℕ → ℕ → SetupReplies
gives port channel talker_reply = record {
  new_local = some port;
  finalize_reply = 0;
  new_channel = some channel;
  listener_reply = 0;
  talker_reply = talker_reply;
}

-- An initialised manager with its pool and its remote port.
pub record IsReady (m : PortManager) : Type 0 where
  pub initialized : m.initialized ≡ true
  pub interface : (h : ℕ) × (m.interface ≡ some h)
  pub pool : (h : ℕ) × (m.nu_dcl_pool ≡ some h)
  pub remote : (h : ℕ) × (m.remote_port ≡ some h)

-- The manager with the two objects of a setup.
abbrev pub joined : PortManager → Option ℕ → ℕ → PortManager
joined m port c = record m { local_port = port; isoch_channel = some c }

module _ (m : PortManager) (dcls address size port c : ℕ) (v : IsReady m) where
  talker_refused :
      (code : ℕ)
      → 0 < address
      → 0 < size
      → address % 4 ≡ 0
      → 0 < code
      → let d = setup_local_port_and_channel m (some dcls) (address, size) (gives port c code) in
        (d.result ≡ unexpected (returned code))
        × (d.manager ≡ joined m none c)
        × (times_acquired channel_object c d.effects ≡ 1)
        × (times_released channel_object c d.effects ≡ 0)
  unfolding setup_local_port_and_channel
  talker_refused code ha hs aligned refused =
      ground (arith, v.interface.1, v.pool.1, v.remote.1, v.initialized)

  pub talker_accepted :
      (other : ℕ)
      → 0 < address
      → 0 < size
      → address % 4 ≡ 0
      → other ≢ c
      → let d = setup_local_port_and_channel m (some dcls) (address, size) (gives port c 0) in
        (d.result ≡ value tt)
        × (d.manager ≡ joined m (some port) c)
        × (times_acquired channel_object other d.effects ≡ 0)
        × (times_released channel_object other d.effects ≡ 0)
  unfolding setup_local_port_and_channel
  talker_accepted other ha hs aligned ne =
      ground (arith, v.interface.1, v.pool.1, v.remote.1, v.initialized)

reset_others :
    (m : PortManager) (port : Option ℕ) (c other : ℕ)
    → other ≢ c
    → (times_acquired channel_object other (reset (joined m port c)).0 ≡ 0)
      × (times_released channel_object other (reset (joined m port c)).0 ≡ 0)
unfolding reset
reset_others m port c other ne = ground arith

joined-IsReady : (m : PortManager) (c : ℕ) → IsReady m → IsReady (joined m none c)
joined-IsReady m c v = record {
  initialized = v.initialized;
  interface = v.interface;
  pool = v.pool;
  remote = v.remote;
}

-- A setup of an initialised manager whose channel refuses its talker fails with the code given, and
-- keeps the channel. When the setup is called again and succeeds with another channel, the first one is
-- forgotten: after all is reset it has been acquired once and never released.
pub forgotten_channel_leaks :
    (m : PortManager) (dcls address size port c code port' c' : ℕ)
    → IsReady m
    → 0 < address
    → 0 < size
    → address % 4 ≡ 0
    → 0 < code
    → c ≢ c'
    → let d = setup_local_port_and_channel m (some dcls) (address, size) (gives port c code) in
      let d' =
        setup_local_port_and_channel d.manager (some dcls) (address, size) (gives port' c' 0) in
      let es = d.effects ++ (d'.effects ++ (reset d'.manager).0) in
      (d.result ≡ unexpected (returned code))
      × (d'.result ≡ value tt)
      × (times_acquired channel_object c es ≡ 1)
      × (times_released channel_object c es ≡ 0)
forgotten_channel_leaks m dcls address size port c code port' c' v ha hs aligned refused ne =
    let (failed, kept, once, never) =
      talker_refused m dcls address size port c v code ha hs aligned refused in
    let (worked, second, none_more, none_back) =
      talker_accepted (joined m none c) dcls address size port' c' (joined-IsReady m c v) c ha hs
        aligned ne in
    let (quiet, kept_out) = reset_others (joined m none c) (some port') c' c ne in
    let es =
      (setup_local_port_and_channel m (some dcls) (address, size) (gives port c code)).effects in
    let es' =
      (setup_local_port_and_channel (joined m none c) (some dcls) (address, size)
        (gives port' c' 0)).effects in
    rw (kept, second)
      (
        failed,
        worked,
        omega (
          arith,
          acquired-append channel_object c es
              (es' ++ (reset (joined (joined m none c) (some port') c')).0),
          acquired-append channel_object c es' (reset (joined (joined m none c) (some port') c')).0,
          once,
          none_more,
          quiet,
        ),
        omega (
          arith,
          released-append channel_object c es
              (es' ++ (reset (joined (joined m none c) (some port') c')).0),
          released-append channel_object c es' (reset (joined (joined m none c) (some port') c')).0,
          never,
          none_back,
          kept_out,
        ),
      )
