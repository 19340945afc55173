-- ===== src/Transport/Tests.antt =====
-- The transport on a concrete history, and the theorems applied.
use fire_wire_audio.Prelude.{ℕ, ◌≤◌, ◌≡◌, refl, Bool, true, false, List, [], ◌∷◌, some, leb}
use fire_wire_audio.Prelude.Expected.{value}
use fire_wire_audio.Transport.{
  Transport, stopped, running, start, start_from, start_prepared, stop, stop_from, stop_running,
  wait_for_finalize, handle_finalize, allocate_channel, start_channel, stop_channel,
  release_channel,
}
use fire_wire_audio.Transport.Protocol.{
  Channel, free, follow_all, channel_of, Event, starts, stops, finalizes, happen, history,
  history_follows, stop_lem,
}

abbrev idle : Transport
idle = record { state = stopped; finalize_callback_called = false; has_finalize_callback = true }

-- The callback comes after three milliseconds.
abbrev after_three : ℕ → Bool
after_three n = leb 3 n

abbrev script : List Event
script =
    starts true false 7
    ∷ starts true true 0
    ∷ starts true true 0
    ∷ stops false after_three
    ∷ finalizes
    ∷ stops true after_three
    ∷ []

run-script :
    (history idle script).0
    ≡ allocate_channel true
      ∷ start_channel false
      ∷ release_channel
      ∷ allocate_channel true
      ∷ start_channel true
      ∷ stop_channel false
      ∷ release_channel
      ∷ []
unfolding history happen start start_from start_prepared stop stop_from stop_running
    wait_for_finalize handle_finalize
run-script = refl

waits_for_three : (stop (record idle { state = running }) true after_three).wait_count ≡ 3
unfolding stop stop_from stop_running wait_for_finalize
waits_for_three = refl

history_follows_example :
    (d : Channel) × (follow_all free (history idle script).0 ≡ some d)
    × (channel_of (history idle script).1.state ≡ some d)
unfolding channel_of
history_follows_example = history_follows script idle free refl

stop_lem_example :
    ((stop (record idle { state = running }) false after_three).outcome.result ≡ value tt)
    × ((stop (record idle { state = running }) false after_three).outcome.calls
        ≡ stop_channel false ∷ release_channel ∷ [])
    × ((stop (record idle { state = running }) false after_three).wait_count ≤ 100)
    × ((start
          (stop (record idle { state = running }) false after_three).outcome.transport
          true
          true
          0).result
        ≡ value tt)
stop_lem_example = stop_lem (record idle { state = running }) false after_three refl
