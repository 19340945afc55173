-- ===== src/Transport/Protocol.antt =====
-- The transport manager keeps to the channel's protocol.
use fire_wire_audio.Prelude.{
  ℕ, zero, suc, ◌+◌, ◌≤◌, ◌≡◌, refl, ◌∙◌, Bool, true, false, List, [], ◌∷◌, ◌++◌, Option, none,
  some, arith,
}
use fire_wire_audio.Prelude.Expected.{value}
use fire_wire_audio.Transport.{
  State, stopped, starting, running, stopping, Transport, ChannelCall, allocate_channel,
  start_channel, stop_channel, release_channel, start_prepared, start_from, start,
  wait_for_finalize, stop_running, stop_from, stop, handle_finalize,
}

-- What IOKit asks for: a channel is allocated when it is free, started when it is allocated, stopped
-- when it is started, and released when it is allocated and not started.
pub data Channel : Type 0 where
  free allocated started : Channel

unfoldable pub follow : Channel → ChannelCall → Option Channel
follow free (allocate_channel true) = some allocated
follow free (allocate_channel false) = some free
follow free (start_channel ok) = none
follow free (stop_channel ok) = none
follow free release_channel = none
follow allocated (allocate_channel ok) = none
follow allocated (start_channel true) = some started
follow allocated (start_channel false) = some allocated
follow allocated (stop_channel ok) = none
follow allocated release_channel = some free
follow started (allocate_channel ok) = none
follow started (start_channel ok) = none
follow started (stop_channel ok) = some allocated
follow started release_channel = none

unfoldable pub follow_all : Channel → List ChannelCall → Option Channel
follow_all c [] = some c
follow_all c (k ∷ ks) = elim (follow c k) [ none ↦ none | some c' ↦ follow_all c' ks ]

follow_all-append :
    (c : Channel) (ks ls : List ChannelCall) (d : Channel)
    → follow_all c ks ≡ some d
    → follow_all c (ks ++ ls) ≡ follow_all d ls
unfolding follow_all
follow_all-append c [] ls d h = ground arith
follow_all-append c (k ∷ ks) ls d h = after (follow c k) (λ c'. follow_all-append c' ks ls d) h
  where
    after :
        (o : Option Channel)
        → ((c' : Channel) → follow_all c' ks ≡ some d → follow_all c' (ks ++ ls) ≡ follow_all d ls)
        → elim o [ none ↦ none | some c' ↦ follow_all c' ks ] ≡ some d
        → elim o [ none ↦ none | some c' ↦ follow_all c' (ks ++ ls) ] ≡ follow_all d ls
    after none next e = absurd (cc)
    after (some c') next e = next c' e

-- Between calls the transport is stopped with the channel free, or running with it started.
unfoldable pub channel_of : State → Option Channel
channel_of stopped = some free
channel_of running = some started
channel_of starting = none
channel_of stopping = none

-- A client's calls, with the channel's replies, and IOKit's callback.
pub data Event : Type 0 where
  starts : Bool → Bool → ℕ → Event
  stops : Bool → (ℕ → Bool) → Event
  finalizes : Event

unfoldable pub happen : Transport → Event → List ChannelCall × Transport
happen t (starts a s code) = ((start t a s code).calls, (start t a s code).transport)
happen t (stops s arrives) =
    ((stop t s arrives).outcome.calls, (stop t s arrives).outcome.transport)
happen t finalizes = ([], (handle_finalize t).1)

unfoldable pub history : Transport → List Event → List ChannelCall × Transport
unfolding happen
history t [] = ([], t)
history t (e ∷ es) =
    ((happen t e).0 ++ (history (happen t e).1 es).0, (history (happen t e).1 es).1)

start_state :
    (s : State) (t : Transport) (c : Channel) (a r : Bool) (code : ℕ)
    → channel_of s ≡ some c
    → channel_of t.state ≡ some c
    → (d : Channel) × (follow_all c (start_from s t a r code).calls ≡ some d)
      × (channel_of (start_from s t a r code).transport.state ≡ some d)
unfolding channel_of follow_all follow start_from start_prepared
start_state stopped t free true true code e m = (started, refl, refl)
start_state stopped t free true false code e m = (free, refl, refl)
start_state stopped t free false r code e m = (free, refl, refl)
start_state stopped t allocated a r code e m = absurd (cc)
start_state stopped t started a r code e m = absurd (cc)
start_state running t c a r code e m = (c, refl, m)
start_state starting t c a r code e m = (c, refl, m)
start_state stopping t c a r code e m = (c, refl, m)

stop_state :
    (s : State) (t : Transport) (c : Channel) (r : Bool) (arrives : ℕ → Bool)
    → channel_of s ≡ some c
    → channel_of t.state ≡ some c
    → (d : Channel) × (follow_all c (stop_from s t r arrives).outcome.calls ≡ some d)
      × (channel_of (stop_from s t r arrives).outcome.transport.state ≡ some d)
unfolding channel_of follow_all follow stop_from stop_running
stop_state running t started r arrives e m = (free, refl, refl)
stop_state running t free r arrives e m = absurd (cc)
stop_state running t allocated r arrives e m = absurd (cc)
stop_state stopped t c r arrives e m = (c, refl, m)
stop_state starting t c r arrives e m = (c, refl, m)
stop_state stopping t c r arrives e m = (c, refl, m)

step :
    (t : Transport) (c : Channel) (e : Event)
    → channel_of t.state ≡ some c
    → (d : Channel) × (follow_all c (happen t e).0 ≡ some d)
      × (channel_of (happen t e).1.state ≡ some d)
unfolding happen start stop handle_finalize follow_all
step t c (starts a s code) m = start_state t.state t c a s code m m
step t c (stops s arrives) m = stop_state t.state t c s arrives m m
step t c finalizes m = (c, refl, m)

-- From a transport that is stopped with its channel free, or running with it started: whatever
-- the client calls, whatever the channel replies and whenever the callback comes, the calls to
-- the channel follow its protocol, and the transport is left in one of those two states with its
-- channel.
pub history_follows :
    (es : List Event) (t : Transport) (c : Channel)
    → channel_of t.state ≡ some c
    → (d : Channel) × (follow_all c (history t es).0 ≡ some d)
      × (channel_of (history t es).1.state ≡ some d)
unfolding history follow_all
history_follows [] t c m = (c, refl, m)
history_follows (e ∷ es) t c m =
    let (d, ok, m') = step t c e m in
    let (d', ok', m'') = history_follows es (happen t e).1 d m' in
    (d', follow_all-append c (happen t e).0 (history (happen t e).1 es).0 d ok ∙ ok', m'')

wait_bound :
    (arrives : ℕ → Bool) (called : Bool) (left n : ℕ)
    → (wait_for_finalize arrives called left n).0 ≤ n + left
unfolding wait_for_finalize
wait_bound arrives called zero n = ground arith
wait_bound arrives called (suc left) n = ground (arith, wait_bound arrives called left (suc n))

-- Stopping a running transport always succeeds, whatever the channel replies and whether or not the
-- callback comes: it stops and releases the channel, waits for 100 milliseconds at most, and
-- leaves the transport stopped, from where it can be started again.
pub stop_lem :
    (t : Transport) (reply : Bool) (arrives : ℕ → Bool)
    → t.state ≡ running
    → let s = stop t reply arrives in
      (s.outcome.result ≡ value tt)
      × (s.outcome.calls ≡ stop_channel reply ∷ release_channel ∷ [])
      × (s.wait_count ≤ 100)
      × ((start s.outcome.transport true true 0).result ≡ value tt)
unfolding stop stop_from stop_running start start_from start_prepared
stop_lem t reply arrives e =
    rw e (refl, refl, wait_bound arrives t.finalize_callback_called 100 0, refl)
