-- ===== src/PortChannel/Balance.antt =====
-- What the port manager acquires, it holds or has released.
use fire_wire_audio.Prelude.{
  ℕ, ◌+◌, ◌≡◌, refl, Bool, true, false, Option, none, some, List, [], ◌∷◌, ◌++◌, ◌==◌,
  if◌then◌else◌, arith, ◌⊎◌, inl, inr, ◌∙◌,
}
use fire_wire_audio.Prelude.Expected.{Expected, value, unexpected, IoKitError}
use fire_wire_audio.PortChannel.{
  PortManager, Kind, nub, callback_dispatcher, isoch_dispatcher, pool_object, remote_object,
  local_object, channel_object, PortEffect, acquired, released, set_port_handlers,
  set_finalize_callback, set_channel_ref_con, add_listener, set_talker, stop_channel,
  release_channel, Done, reset, InitReplies, initialize, next_step, or_else, mark_initialized,
  add_remote_port, add_pool, setup_dispatchers, setup_nu_dcl_pool, create_remote_port, undo_pool,
  cleanup_dispatchers,
}
use fire_wire_audio.PortChannel.Setup.{SetupReplies, setup_local_port_and_channel}

abbrev kind_code : Kind → ℕ
kind_code nub = 0
kind_code callback_dispatcher = 1
kind_code isoch_dispatcher = 2
kind_code pool_object = 3
kind_code remote_object = 4
kind_code local_object = 5
kind_code channel_object = 6

abbrev pub hits : Kind → ℕ → Kind → ℕ → ℕ
hits k h k' h' = if kind_code k == kind_code k' then (if h == h' then 1 else 0) else 0

abbrev pub gained : Kind → ℕ → PortEffect → ℕ
gained k h (acquired k' h') = hits k h k' h'
gained k h (released k' h') = 0
gained k h (set_port_handlers p) = 0
gained k h (set_finalize_callback p) = 0
gained k h (set_channel_ref_con c) = 0
gained k h (add_listener c p) = 0
gained k h (set_talker c p) = 0
gained k h (stop_channel c) = 0
gained k h (release_channel c) = 0

abbrev pub lost : Kind → ℕ → PortEffect → ℕ
lost k h (acquired k' h') = 0
lost k h (released k' h') = hits k h k' h'
lost k h (set_port_handlers p) = 0
lost k h (set_finalize_callback p) = 0
lost k h (set_channel_ref_con c) = 0
lost k h (add_listener c p) = 0
lost k h (set_talker c p) = 0
lost k h (stop_channel c) = 0
lost k h (release_channel c) = 0

-- How often the object `h` of kind `k` is acquired and released.
abbrev pub times_acquired : Kind → ℕ → List PortEffect → ℕ
times_acquired k h [] = 0
times_acquired k h (e ∷ es) = gained k h e + times_acquired k h es

abbrev pub times_released : Kind → ℕ → List PortEffect → ℕ
times_released k h [] = 0
times_released k h (e ∷ es) = lost k h e + times_released k h es

abbrev points_to : Option ℕ → ℕ → ℕ
points_to none h = 0
points_to (some h') h = if h == h' then 1 else 0

-- How often the manager holds it, 0 or 1.
abbrev pub held : PortManager → Kind → ℕ → ℕ
held m nub h = points_to m.interface h
held m callback_dispatcher h = if m.dispatchers_added then points_to m.interface h else 0
held m isoch_dispatcher h = if m.dispatchers_added then points_to m.interface h else 0
held m pool_object h = points_to m.nu_dcl_pool h
held m remote_object h = points_to m.remote_port h
held m local_object h = points_to m.local_port h
held m channel_object h = points_to m.isoch_channel h

-- What changes hands between two states of the manager.
pub record Balances (m : PortManager) (es : List PortEffect) (m' : PortManager) : Type 0 where
  pub evens :
      (k : Kind) (h : ℕ) → times_acquired k h es + held m k h ≡ times_released k h es + held m' k h

pub acquired-append :
    (k : Kind) (h : ℕ) (xs ys : List PortEffect)
    → times_acquired k h (xs ++ ys) ≡ times_acquired k h xs + times_acquired k h ys
acquired-append k h [] ys = omega arith
acquired-append k h (x ∷ xs) ys = omega (arith, acquired-append k h xs ys)

pub released-append :
    (k : Kind) (h : ℕ) (xs ys : List PortEffect)
    → times_released k h (xs ++ ys) ≡ times_released k h xs + times_released k h ys
released-append k h [] ys = omega arith
released-append k h (x ∷ xs) ys = omega (arith, released-append k h xs ys)

pub Balances-append :
    {m m' m'' : PortManager} {xs ys : List PortEffect}
    → Balances m xs m'
    → Balances m' ys m''
    → Balances m (xs ++ ys) m''
Balances-append {xs = xs} {ys = ys} p q = record {
  evens = λ k h.
      omega (arith, acquired-append k h xs ys, released-append k h xs ys, p.evens k h, q.evens k h);
}

pub reset_evens :
    (m : PortManager) (k : Kind) (h : ℕ)
    → times_acquired k h (reset m).0 + held m k h
      ≡ times_released k h (reset m).0 + held (reset m).1 k h
unfolding reset
reset_evens m nub h = ground arith
reset_evens m k h = ground arith

-- A method's step balances.
abbrev pub DoneBalances : PortManager → Done → Type 0
DoneBalances m d = Balances m d.effects d.manager

pub result_cases :
    (x : Expected (Unit {0}))
    → ((u : Unit {0}) × (x ≡ value u)) ⊎ ((e : IoKitError) × (x ≡ unexpected e))
result_cases (value u) = inl (u, refl)
result_cases (unexpected e) = inr (e, refl)

next_step-Balances :
    (m : PortManager) (d : Done) (f : PortManager → Done)
    → DoneBalances m d
    → DoneBalances d.manager (f d.manager)
    → DoneBalances m (next_step d f)
next_step-Balances m d f p q = elim (result_cases d.result) [
  | inl (u, e) ↦ rw e (Balances-append p q)
  | inr (c, e) ↦ rw e p
]

or_else-Balances :
    (m : PortManager) (d : Done) (f : PortManager → List PortEffect × PortManager)
    → DoneBalances m d
    → Balances d.manager (f d.manager).0 (f d.manager).1
    → DoneBalances m (or_else d f)
or_else-Balances m d f p q = elim (result_cases d.result) [
  | inl (u, e) ↦ rw e p
  | inr (c, e) ↦ rw e (Balances-append p q)
]

stays : (m : PortManager) → Balances m [] m
stays m = record { evens = λ k h. refl }

cleanup_dispatchers_evens :
    (m : PortManager) (k : Kind) (h : ℕ)
    → times_acquired k h (cleanup_dispatchers m).0 + held m k h
      ≡ times_released k h (cleanup_dispatchers m).0 + held (cleanup_dispatchers m).1 k h
unfolding cleanup_dispatchers
cleanup_dispatchers_evens m nub h = ground arith
cleanup_dispatchers_evens m k h = ground arith

undo_pool_evens :
    (m : PortManager) (k : Kind) (h : ℕ)
    → times_acquired k h (undo_pool m).0 + held m k h
      ≡ times_released k h (undo_pool m).0 + held (undo_pool m).1 k h
unfolding undo_pool
undo_pool_evens m nub h = ground arith
undo_pool_evens m k h = ground arith

setup_dispatchers_evens :
    (m : PortManager) (a b : ℕ) (k : Kind) (h : ℕ)
    → m.dispatchers_added ≡ false
    → times_acquired k h (setup_dispatchers m a b).effects + held m k h
      ≡ times_released k h (setup_dispatchers m a b).effects
        + held (setup_dispatchers m a b).manager k h
unfolding setup_dispatchers
setup_dispatchers_evens m a b nub h none_added = ground arith
setup_dispatchers_evens m a b k h none_added = ground arith

setup_nu_dcl_pool_evens :
    (m : PortManager) (o : Option ℕ) (k : Kind) (h : ℕ)
    → m.nu_dcl_pool ≡ none
    → times_acquired k h (setup_nu_dcl_pool m o).effects + held m k h
      ≡ times_released k h (setup_nu_dcl_pool m o).effects
        + held (setup_nu_dcl_pool m o).manager k h
unfolding setup_nu_dcl_pool
setup_nu_dcl_pool_evens m o nub h none_held = ground arith
setup_nu_dcl_pool_evens m o k h none_held = ground arith

create_remote_port_evens :
    (m : PortManager) (o : Option ℕ) (k : Kind) (h : ℕ)
    → m.remote_port ≡ none
    → times_acquired k h (create_remote_port m o).effects + held m k h
      ≡ times_released k h (create_remote_port m o).effects
        + held (create_remote_port m o).manager k h
unfolding create_remote_port
create_remote_port_evens m o nub h none_held = ground arith
create_remote_port_evens m o k h none_held = ground arith

pub dispatchers-keep :
    (m : PortManager) (a b : ℕ)
    → ((setup_dispatchers m a b).manager.nu_dcl_pool ≡ m.nu_dcl_pool)
      × ((setup_dispatchers m a b).manager.remote_port ≡ m.remote_port)
unfolding setup_dispatchers
dispatchers-keep m a b = ground arith

pool-keeps :
    (m : PortManager) (o : Option ℕ)
    → (or_else (setup_nu_dcl_pool m o) cleanup_dispatchers).manager.remote_port ≡ m.remote_port
unfolding setup_nu_dcl_pool cleanup_dispatchers
pool-keeps m o = ground arith

marked_evens :
    (m : PortManager) (k : Kind) (h : ℕ)
    → 0 + held m k h ≡ 0 + held (record m { initialized = true }) k h
marked_evens m nub h = refl
marked_evens m k h = refl

marked : (m : PortManager) → DoneBalances m (mark_initialized m)
marked m = record { evens = λ k h. marked_evens m k h }

add_remote_port-Balances :
    (m : PortManager) (new : Option ℕ)
    → m.remote_port ≡ none
    → DoneBalances m (add_remote_port new m)
unfolding add_remote_port
add_remote_port-Balances m new no_remote =
    let d = or_else (create_remote_port m new) undo_pool in
    next_step-Balances m d mark_initialized
      (or_else-Balances m (create_remote_port m new) undo_pool
        (record { evens = λ k h. create_remote_port_evens m new k h no_remote })
        (record { evens = undo_pool_evens (create_remote_port m new).manager }))
      (marked d.manager)

add_pool-Balances :
    (m : PortManager) (r : InitReplies)
    → m.nu_dcl_pool ≡ none
    → m.remote_port ≡ none
    → DoneBalances m (add_pool r m)
unfolding add_pool
add_pool-Balances m r no_pool no_remote =
    let d = or_else (setup_nu_dcl_pool m r.new_pool) cleanup_dispatchers in
    next_step-Balances m d (add_remote_port r.new_remote)
      (or_else-Balances m (setup_nu_dcl_pool m r.new_pool) cleanup_dispatchers
        (record { evens = λ k h. setup_nu_dcl_pool_evens m r.new_pool k h no_pool })
        (record { evens = cleanup_dispatchers_evens (setup_nu_dcl_pool m r.new_pool).manager }))
      (add_remote_port-Balances d.manager r.new_remote (pool-keeps m r.new_pool ∙ no_remote))

-- The two guards of `initialize`.
pub guarded :
    (Q : Done → Type 0) (b : Bool) (o : Option ℕ) (x y z : Done)
    → Q x
    → Q y
    → (b ≡ false → Q z)
    → Q (if b then x else elim o [ none ↦ y | some h ↦ z ])
guarded Q true o x y z p q r = p
guarded Q false none x y z p q r = q
guarded Q false (some h) x y z p q r = r refl

-- What a failed step and the next one establish.
pub next_step_keeps :
    (P : PortManager → Type 0) (d : Done) (f : PortManager → Done)
    → ((e : IoKitError) → d.result ≡ unexpected e → P d.manager)
    → P (f d.manager).manager
    → P (next_step d f).manager
next_step_keeps P d f p q = elim (result_cases d.result) [
  | inl (u, e) ↦ rw e q
  | inr (c, e) ↦ rw e (p c e)
]

-- Before the manager is initialised it holds nothing but its reference to the interface.
abbrev pub IsBare : PortManager → Type 0
IsBare m =
    (m.nu_dcl_pool ≡ none)
    × (m.remote_port ≡ none)
    × (m.local_port ≡ none)
    × (m.isoch_channel ≡ none)
    × (m.dispatchers_added ≡ false)

pub initialize-Balances :
    (m : PortManager) (r : InitReplies)
    → (m.initialized ≡ false → IsBare m)
    → DoneBalances m (initialize m r)
unfolding initialize
initialize-Balances m r bare =
    let d = setup_dispatchers m r.callback_reply r.isoch_reply in
    let (keeps_pool, keeps_remote) = dispatchers-keep m r.callback_reply r.isoch_reply in
    guarded (DoneBalances m) m.initialized m.interface _ _ (next_step d (add_pool r)) (stays m)
      (stays m)
      (λ e.
        next_step-Balances m d (add_pool r)
          (record {
            evens = λ k h. setup_dispatchers_evens m r.callback_reply r.isoch_reply k h (bare e).4;
          })
          (add_pool-Balances d.manager r (keeps_pool ∙ (bare e).0) (keeps_remote ∙ (bare e).1)))

pub setup_evens :
    (m : PortManager) (program : Option ℕ) (range : ℕ × ℕ) (r : SetupReplies) (k : Kind) (h : ℕ)
    → m.local_port ≡ none
    → m.isoch_channel ≡ none
    → times_acquired k h (setup_local_port_and_channel m program range r).effects + held m k h
      ≡ times_released k h (setup_local_port_and_channel m program range r).effects
        + held (setup_local_port_and_channel m program range r).manager k h
unfolding setup_local_port_and_channel
setup_evens m program range r nub h no_port no_channel = ground arith
setup_evens m program range r k h no_port no_channel = ground arith
