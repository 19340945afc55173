-- ===== src/Monitoring.antt =====
-- src/Isoch/core/IsochMonitoringManager.cpp and its header: the timer that reports a receiver
-- without data. A run-loop timer is a number that the framework gives: `create` is what its creation
-- returns. A method returns what it did to timers and the callbacks that it made beside the manager.
-- The run loop and the timer's date have no counterpart.
pub mod Timers
mod Tests
use fire_wire_audio.Prelude.{
  ℕ, Bool, true, false, List, [], ◌∷◌, ◌++◌, Option, none, some, ◌==◌, if◌then◌else◌,
}
use fire_wire_audio.Prelude.Expected.{Expected, value, unexpected, no_memory}

pub record Monitor : Type 0 where
  pub timer : Option ℕ
  pub has_callback : Bool
  pub timeout_ms : ℕ
  pub last_cycle : ℕ

-- A timer created with its timeout, one invalidated and released, and the no-data callback.
pub data Effect : Type 0 where
  created : ℕ → ℕ → Effect
  released : ℕ → Effect
  no_data : ℕ → Effect

abbrev pub fresh : Monitor
fresh = record { timer = none; has_callback = false; timeout_ms = 1000; last_cycle = 0 }

unfoldable pub internal_stop_and_release_timer : Monitor → List Effect × Monitor
internal_stop_and_release_timer m = elim m.timer [
  | none ↦ ([], m)
  | some t ↦ (released t ∷ [], record m { timer = none })
]

pub record Started : Type 0 where
  pub result : Expected (Unit {0})
  pub effects : List Effect
  pub monitor : Monitor

unfoldable pub start_monitoring : Monitor → ℕ → Option ℕ → Started
unfolding internal_stop_and_release_timer
start_monitoring m timeout_ms create =
    let (stops, m') = internal_stop_and_release_timer m in
    elim create [
      | none ↦ record {
        result = unexpected no_memory;
        effects = stops;
        monitor = record m' { timer = none; timeout_ms = timeout_ms };
      }
      | some t ↦ record {
        result = value tt;
        effects = stops ++ (created t timeout_ms ∷ []);
        monitor = record m' { timer = some t; timeout_ms = timeout_ms };
      }
    ]

abbrev pub stop_monitoring : Monitor → List Effect × Monitor
stop_monitoring m = internal_stop_and_release_timer m

-- The result of the restart is dropped, as in the source.
unfoldable pub reset_timer : Monitor → Option ℕ → List Effect × Monitor
unfolding start_monitoring
reset_timer m create = if m.timeout_ms == 0 then ([], m) else (
  (start_monitoring m m.timeout_ms create).effects,
  (start_monitoring m m.timeout_ms create).monitor,
)

unfoldable pub handle_timeout : Monitor → Option ℕ → List Effect × Monitor
unfolding reset_timer
handle_timeout m create =
    let (restart, m') = reset_timer m create in
    ((if m.has_callback then no_data m.last_cycle ∷ [] else []) ++ restart, m')

abbrev pub update_last_cycle : Monitor → ℕ → Monitor
update_last_cycle m cycle = record m { last_cycle = cycle }

abbrev pub set_no_data_callback : Monitor → Bool → Monitor
set_no_data_callback m callback = record m { has_callback = callback }
