-- ===== src/Monitoring/Timers.antt =====
-- No timer of the monitor is leaked, and no two run at once.
use fire_wire_audio.Prelude.{
  ℕ, ◌≡◌, ◌∙◌, Bool, true, List, [], ◌∷◌, ◌++◌, Option, none, some, arith, ◌==◌, if◌then◌else◌,
}
use fire_wire_audio.Monitoring.{
  Monitor, Effect, created, released, no_data, internal_stop_and_release_timer, start_monitoring,
  stop_monitoring, reset_timer, handle_timeout, update_last_cycle, set_no_data_callback,
}

-- The timers at work after some effects: none or one at a time, and only that one is released.
unfoldable pub at_work : Option ℕ → List Effect → Option (Option ℕ)
at_work live [] = some live
at_work none (created t ms ∷ es) = at_work (some t) es
at_work (some u) (created t ms ∷ es) = none
at_work none (released t ∷ es) = none
at_work (some u) (released t ∷ es) = if u == t then at_work none es else none
at_work live (no_data c ∷ es) = at_work live es

pub data Event : Type 0 where
  starts : ℕ → Option ℕ → Event
  stops : Event
  fires : Option ℕ → Event
  sees_cycle : ℕ → Event
  sets_callback : Bool → Event

unfoldable pub happen : Monitor → Event → List Effect × Monitor
happen m (starts ms create) =
    ((start_monitoring m ms create).effects, (start_monitoring m ms create).monitor)
happen m stops = stop_monitoring m
happen m (fires create) = handle_timeout m create
happen m (sees_cycle c) = ([], update_last_cycle m c)
happen m (sets_callback b) = ([], set_no_data_callback m b)

unfoldable pub history : Monitor → List Event → List Effect × Monitor
unfolding happen
history m [] = ([], m)
history m (e ∷ es) =
    ((happen m e).0 ++ (history (happen m e).1 es).0, (history (happen m e).1 es).1)

at_work-append :
    (live : Option ℕ) (es fs : List Effect) (next : Option ℕ)
    → at_work live es ≡ some next
    → at_work live (es ++ fs) ≡ at_work next fs
unfolding at_work
at_work-append live [] fs next h = ground arith
at_work-append none (created t ms ∷ es) fs next h = at_work-append (some t) es fs next h
at_work-append (some u) (created t ms ∷ es) fs next h = absurd (cc)
at_work-append none (released t ∷ es) fs next h = absurd (cc)
at_work-append (some u) (released t ∷ es) fs next h = ground (arith, at_work-append none es fs next)
at_work-append none (no_data c ∷ es) fs next h = at_work-append none es fs next h
at_work-append (some u) (no_data c ∷ es) fs next h = at_work-append (some u) es fs next h

start_works :
    (m : Monitor) (ms : ℕ) (create : Option ℕ)
    → at_work m.timer (start_monitoring m ms create).effects
      ≡ some ((start_monitoring m ms create).monitor.timer)
unfolding at_work start_monitoring internal_stop_and_release_timer
start_works m ms create = ground arith

reset_works :
    (m : Monitor) (create : Option ℕ)
    → at_work m.timer (reset_timer m create).0 ≡ some ((reset_timer m create).1.timer)
unfolding at_work reset_timer
reset_works m create = ground (arith, start_works m m.timeout_ms create)

step_works :
    (m : Monitor) (e : Event) → at_work m.timer (happen m e).0 ≡ some ((happen m e).1.timer)
unfolding happen at_work handle_timeout internal_stop_and_release_timer
step_works m (starts ms create) = start_works m ms create
step_works m stops = ground arith
step_works m (fires create) = ground (arith, reset_works m create)
step_works m (sees_cycle c) = ground arith
step_works m (sets_callback b) = ground arith

-- Whatever is called, whenever the timer fires and whether or not a timer can be created, at most one
-- timer is at work at a time, only that one is released, and it is the one that the monitor holds.
pub history_works :
    (m : Monitor) (es : List Event)
    → at_work m.timer (history m es).0 ≡ some ((history m es).1.timer)
unfolding history at_work
history_works m [] = ground arith
history_works m (e ∷ es) =
    at_work-append m.timer (happen m e).0 (history (happen m e).1 es).0 (happen m e).1.timer
      (step_works m e)
    ∙ history_works (happen m e).1 es

-- A timeout calls the client, with the last cycle seen, before anything else; it then restarts the
-- timer with the timeout in force, unless that is zero, and holds none when none can be created.
pub timeout_lem :
    (m : Monitor) (create : Option ℕ)
    → m.has_callback ≡ true
    → ((handle_timeout m create).0 ≡ no_data m.last_cycle ∷ (reset_timer m create).0)
      × ((handle_timeout m create).1.timer ≡ (if m.timeout_ms == 0 then m.timer else create))
      × ((handle_timeout m create).1.timeout_ms ≡ m.timeout_ms)
unfolding handle_timeout reset_timer start_monitoring internal_stop_and_release_timer
timeout_lem m create h = ground (arith, h)
