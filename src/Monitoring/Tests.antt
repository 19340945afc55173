-- ===== src/Monitoring/Tests.antt =====
-- The monitor on a concrete history, and the theorems applied.
use fire_wire_audio.Prelude.{◌≡◌, refl, true, List, [], ◌∷◌, none, some}
use fire_wire_audio.Monitoring.{
  Monitor, fresh, created, released, no_data, start_monitoring, internal_stop_and_release_timer,
  reset_timer, handle_timeout,
}
use fire_wire_audio.Monitoring.Timers.{
  Event, starts, stops, fires, sees_cycle, sets_callback, at_work, happen, history, history_works,
}

abbrev script : List Event
script =
    sets_callback true
    ∷ starts 500 (some 1)
    ∷ sees_cycle 77
    ∷ fires (some 2)
    ∷ starts 250 none
    ∷ starts 250 (some 3)
    ∷ stops
    ∷ []

run-script :
    (history fresh script).0
    ≡ created 1 500
      ∷ no_data 77
      ∷ released 1
      ∷ created 2 500
      ∷ released 2
      ∷ created 3 250
      ∷ released 3
      ∷ []
unfolding history happen start_monitoring internal_stop_and_release_timer reset_timer handle_timeout
run-script = refl

history_works_example :
    at_work none (history fresh script).0 ≡ some ((history fresh script).1.timer)
history_works_example = history_works fresh script

abbrev armed : Monitor
armed = record fresh { has_callback = true; timer = some 4; last_cycle = 9 }
