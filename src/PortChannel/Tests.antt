-- ===== src/PortChannel/Tests.antt =====
-- A port manager through a life, and the theorems applied.
use fire_wire_audio.Prelude.{◌≡◌, refl, true, not, none, some, [], ◌∷◌, ◌++◌, ◌==◌, arith, List}
use fire_wire_audio.Prelude.Expected.{value, unexpected, returned}
use fire_wire_audio.PortChannel.{
  PortManager, channel_object, any_available_isoch_channel, construct, reset, initialize,
  InitReplies, stop_channel, release_channel, released, local_object, remote_object, pool_object,
  isoch_dispatcher, callback_dispatcher, nub,
}
use fire_wire_audio.PortChannel.Setup.{
  setup_local_port_and_channel, configure, get_supported, start_port, allocate_port, handle,
}
use fire_wire_audio.PortChannel.Balance.{times_acquired, times_released}
use fire_wire_audio.PortChannel.History.{
  Call, initializes, sets_up, configures, handles, history, call, AllFit, lifetime_releases,
}
use fire_wire_audio.PortChannel.Leak.{gives, forgotten_channel_leaks}
use fire_wire_audio.PortChannel.Channels.{offers, offers_lem}

abbrev willing : InitReplies
willing = record { callback_reply = 0; isoch_reply = 0; new_pool = some 20; new_remote = some 30 }

-- A first attempt without memory for the remote port, then a stream that runs.
abbrev a_life : List Call
a_life =
    initializes (record willing { new_remote = none })
    ∷ initializes willing
    ∷ configures 2 5
    ∷ sets_up (some 70) (4096, 8192) (gives 40 50 0)
    ∷ handles (allocate_port 5)
    ∷ handles start_port
    ∷ []

abbrev alive : PortManager
alive = (history (construct (some 10) true).1 a_life).1

life_ends :
    (reset alive).0
    ≡ stop_channel 50
      ∷ release_channel 50
      ∷ released channel_object 50
      ∷ released local_object 40
      ∷ released remote_object 30
      ∷ released pool_object 20
      ∷ released isoch_dispatcher 10
      ∷ released callback_dispatcher 10
      ∷ released nub 10
      ∷ []
unfolding reset history construct call initialize setup_local_port_and_channel configure handle
life_ends = refl

lifetime_releases_example :
    let (made, m) = construct (some 10) true in
    let (used, m') = history m a_life in
    let es = made ++ (used ++ (reset m').0) in
    times_acquired channel_object 50 es ≡ times_released channel_object 50 es
unfolding AllFit call initialize configure setup_local_port_and_channel construct
lifetime_releases_example =
    lifetime_releases (some 10) true a_life channel_object 50
      (tt, (tt, (tt, ((refl, refl), (tt, (tt, tt))))))

abbrev ready : PortManager
ready = (initialize (construct (some 10) true).1 willing).manager

forgotten_channel_leaks_example :
    let d = setup_local_port_and_channel ready (some 70) (4096, 8192) (gives 40 50 7) in
    let d' = setup_local_port_and_channel d.manager (some 70) (4096, 8192) (gives 41 51 0) in
    let es = d.effects ++ (d'.effects ++ (reset d'.manager).0) in
    (d.result ≡ unexpected (returned 7))
    × (d'.result ≡ value tt)
    × (times_acquired channel_object 50 es ≡ 1)
    × (times_released channel_object 50 es ≡ 0)
unfolding initialize construct
forgotten_channel_leaks_example =
    forgotten_channel_leaks ready 70 4096 8192 40 50 7 41 51
      (record {
        initialized = refl;
        interface = (10, refl);
        pool = (20, refl);
        remote = (30, refl);
      })
      (omega arith) (omega arith) (omega arith) (omega arith) (omega arith)

offers_lem_example :
    (offers (get_supported (configure ready 2 5).manager).1 5 ≡ (5 == 5))
    × (offers (get_supported (configure ready 2 any_available_isoch_channel).manager).1 5
        ≡ not (5 == 63))
unfolding initialize construct
offers_lem_example = offers_lem ready 2 5 5 refl refl (omega arith) (omega arith)
