-- ===== src/PortChannel/History.antt =====
-- Whatever is called, what the port manager acquires is given back when it is destroyed.
use fire_wire_audio.Prelude.{
  ℕ, ◌+◌, ◌≡◌, refl, Bool, false, Option, none, some, List, [], ◌∷◌, ◌++◌, arith, sym, ◌∙◌,
}
use mathlib.Core.Path.{subst}
use fire_wire_audio.Prelude.Expected.{unexpected, IoKitError}
use fire_wire_audio.PortChannel.{
  PortManager, Kind, nub, PortEffect, construct, reset, InitReplies, initialize, add_remote_port,
  add_pool, setup_dispatchers, setup_nu_dcl_pool, cleanup_dispatchers, cleanup_resources, or_else,
  next_step, Done,
}
use fire_wire_audio.PortChannel.Setup.{
  not_prepared, SetupReplies, setup_local_port_and_channel, configure, PortHandler, allocate_port,
  release_port, start_port, stop_port, port_finalize, handle,
}
use fire_wire_audio.PortChannel.Balance.{
  times_acquired, times_released, held, Balances, Balances-append, acquired-append, released-append,
  IsBare, reset_evens, initialize-Balances, setup_evens, guarded, next_step_keeps, dispatchers-keep,
}

-- The calls of the manager's owner, and of the framework.
pub data Call : Type 0 where
  initializes : InitReplies → Call
  sets_up : Option ℕ → ℕ × ℕ → SetupReplies → Call
  configures : ℕ → ℕ → Call
  resets : Call
  handles : PortHandler → Call

unfoldable pub call : PortManager → Call → List PortEffect × PortManager
call m (initializes r) = ((initialize m r).effects, (initialize m r).manager)
call m (sets_up program range r) =
    let d = setup_local_port_and_channel m program range r in (d.effects, d.manager)
call m (configures speed wanted) = ([], (configure m speed wanted).manager)
call m resets = reset m
call m (handles h) = ([], handle m h)

unfoldable pub history : PortManager → List Call → List PortEffect × PortManager
history m [] = ([], m)
history m (c ∷ cs) = let (es, m') = call m c in let (more, m'') = history m' cs in (es ++ more, m'')

-- A port and a channel are set up only where none are left.
abbrev pub Fits : PortManager → Call → Type 0
Fits m (initializes r) = Unit
Fits m (sets_up program range r) = (m.local_port ≡ none) × (m.isoch_channel ≡ none)
Fits m (configures speed wanted) = Unit
Fits m resets = Unit
Fits m (handles h) = Unit

unfoldable pub AllFit : PortManager → List Call → Type 0
AllFit m [] = Unit
AllFit m (c ∷ cs) = Fits m c × AllFit (call m c).1 cs

-- What the methods leave: before the manager is initialised it is bare, and without an interface it
-- has no dispatchers.
pub record IsTidy (m : PortManager) : Type 0 where
  pub bare : m.initialized ≡ false → IsBare m
  pub wired : m.interface ≡ none → m.dispatchers_added ≡ false

-- The manager between the steps of `initialize`.
record IsOpening (m : PortManager) : Type 0 where
  no_port : m.local_port ≡ none
  no_channel : m.isoch_channel ≡ none
  no_remote : m.remote_port ≡ none
  wired : m.interface ≡ none → m.dispatchers_added ≡ false

remote-IsTidy :
    (m : PortManager) (new : Option ℕ) → IsOpening m → IsTidy (add_remote_port new m).manager
unfolding add_remote_port
remote-IsTidy m new v = ground arith

pool-IsOpening :
    (m : PortManager) (new : Option ℕ)
    → IsOpening m
    → IsOpening (or_else (setup_nu_dcl_pool m new) cleanup_dispatchers).manager
unfolding setup_nu_dcl_pool cleanup_dispatchers
pool-IsOpening m new v = ground arith

pool_refused :
    (m : PortManager) (new : Option ℕ) (e : IoKitError)
    → IsOpening m
    → (or_else (setup_nu_dcl_pool m new) cleanup_dispatchers).result ≡ unexpected e
    → m.nu_dcl_pool ≡ none
    → IsTidy (or_else (setup_nu_dcl_pool m new) cleanup_dispatchers).manager
unfolding setup_nu_dcl_pool cleanup_dispatchers
pool_refused m new e v h no_pool = ground arith

pool-IsTidy :
    (m : PortManager) (r : InitReplies)
    → IsOpening m
    → m.nu_dcl_pool ≡ none
    → IsTidy (add_pool r m).manager
unfolding add_pool
pool-IsTidy m r v no_pool =
    let d = or_else (setup_nu_dcl_pool m r.new_pool) cleanup_dispatchers in
    next_step_keeps IsTidy d (add_remote_port r.new_remote)
      (λ c e. pool_refused m r.new_pool c v e no_pool)
      (remote-IsTidy d.manager r.new_remote (pool-IsOpening m r.new_pool v))

dispatchers-IsOpening :
    (m : PortManager) (a b : ℕ) → IsBare m → IsOpening (setup_dispatchers m a b).manager
unfolding setup_dispatchers
dispatchers-IsOpening m a b v = ground arith

dispatchers_refused :
    (m : PortManager) (a b : ℕ) (e : IoKitError)
    → IsBare m
    → (setup_dispatchers m a b).result ≡ unexpected e
    → IsTidy (setup_dispatchers m a b).manager
unfolding setup_dispatchers
dispatchers_refused m a b e v h = ground arith

initialize-IsTidy : (m : PortManager) (r : InitReplies) → IsTidy m → IsTidy (initialize m r).manager
unfolding initialize
initialize-IsTidy m r t =
    let d = setup_dispatchers m r.callback_reply r.isoch_reply in
    guarded (λ x. IsTidy x.manager) m.initialized m.interface _ _ (next_step d (add_pool r)) t t
      (λ e.
        next_step_keeps IsTidy d (add_pool r)
          (λ c refused. dispatchers_refused m r.callback_reply r.isoch_reply c (t.bare e) refused)
          (pool-IsTidy d.manager r
            (dispatchers-IsOpening m r.callback_reply r.isoch_reply (t.bare e))
            ((dispatchers-keep m r.callback_reply r.isoch_reply).0 ∙ (t.bare e).0)))

setup_refused :
    (m : PortManager) (program : Option ℕ) (range : ℕ × ℕ) (r : SetupReplies)
    → m.initialized ≡ false
    → setup_local_port_and_channel m program range r ≡ not_prepared m
unfolding setup_local_port_and_channel
setup_refused m program range r e = ground arith

setup-keeps :
    (m : PortManager) (program : Option ℕ) (range : ℕ × ℕ) (r : SetupReplies)
    → let m' = (setup_local_port_and_channel m program range r).manager in
      (m'.initialized ≡ m.initialized)
      × (m'.interface ≡ m.interface)
      × (m'.dispatchers_added ≡ m.dispatchers_added)
unfolding setup_local_port_and_channel
setup-keeps m program range r = ground arith

setup-IsTidy :
    (m : PortManager) (program : Option ℕ) (range : ℕ × ℕ) (r : SetupReplies)
    → IsTidy m
    → IsTidy (setup_local_port_and_channel m program range r).manager
setup-IsTidy m program range r t =
    let (same, nub_kept, added_kept) = setup-keeps m program range r in
    record {
      bare = λ e.
          subst (λ (d : Done). IsBare d.manager)
            (sym (setup_refused m program range r (sym same ∙ e))) (t.bare (sym same ∙ e));
      wired = λ e. added_kept ∙ t.wired (sym nub_kept ∙ e);
    }

configure-IsTidy :
    (m : PortManager) (speed wanted : ℕ) → IsTidy m → IsTidy (configure m speed wanted).manager
unfolding configure
configure-IsTidy m speed wanted t = ground arith

handle-IsTidy : (m : PortManager) (h : PortHandler) → IsTidy m → IsTidy (handle m h)
unfolding handle
handle-IsTidy m (allocate_port c) t = record { bare = t.bare; wired = t.wired }
handle-IsTidy m release_port t = record { bare = t.bare; wired = t.wired }
handle-IsTidy m start_port t = record { bare = t.bare; wired = t.wired }
handle-IsTidy m stop_port t = record { bare = t.bare; wired = t.wired }
handle-IsTidy m port_finalize t = record { bare = t.bare; wired = t.wired }

configure_evens :
    (m : PortManager) (speed wanted : ℕ) (k : Kind) (h : ℕ)
    → 0 + held m k h ≡ 0 + held (configure m speed wanted).manager k h
unfolding configure
configure_evens m speed wanted nub h = ground arith
configure_evens m speed wanted k h = ground arith

handle_evens :
    (m : PortManager) (x : PortHandler) (k : Kind) (h : ℕ)
    → 0 + held m k h ≡ 0 + held (handle m x) k h
unfolding handle
handle_evens m (allocate_port c) nub h = refl
handle_evens m x k h = ground arith

reset-IsTidy : (m : PortManager) → IsTidy m → IsTidy (reset m).1
unfolding reset cleanup_dispatchers cleanup_resources
reset-IsTidy m t = ground arith

call-IsTidy : (m : PortManager) (c : Call) → IsTidy m → IsTidy (call m c).1
unfolding call
call-IsTidy m (initializes r) t = initialize-IsTidy m r t
call-IsTidy m (sets_up program range r) t = setup-IsTidy m program range r t
call-IsTidy m (configures speed wanted) t = configure-IsTidy m speed wanted t
call-IsTidy m resets t = reset-IsTidy m t
call-IsTidy m (handles h) t = handle-IsTidy m h t

call-Balances :
    (m : PortManager) (c : Call) → IsTidy m → Fits m c → Balances m (call m c).0 (call m c).1
unfolding call
call-Balances m (initializes r) t v = initialize-Balances m r t.bare
call-Balances m (sets_up program range r) t v = record {
  evens = λ k h. setup_evens m program range r k h v.0 v.1;
}
call-Balances m (configures speed wanted) t v = record { evens = configure_evens m speed wanted }
call-Balances m resets t v = record { evens = reset_evens m }
call-Balances m (handles h) t v = record { evens = handle_evens m h }

history-Balances :
    (m : PortManager) (cs : List Call)
    → IsTidy m
    → AllFit m cs
    → Balances m (history m cs).0 (history m cs).1
unfolding history AllFit
history-Balances m [] t v = record { evens = λ k h. refl }
history-Balances m (c ∷ cs) t v =
    Balances-append (call-Balances m c t v.0)
      (history-Balances (call m c).1 cs (call-IsTidy m c t) v.1)

-- After `reset` nothing is held.
reset-holds : (m : PortManager) (k : Kind) (h : ℕ) → held (reset m).1 k h ≡ 0
unfolding reset cleanup_resources cleanup_dispatchers
reset-holds m nub h = ground arith
reset-holds m k h = ground arith

construct-IsTidy :
    (interface : Option ℕ) (is_talker : Bool) → IsTidy (construct interface is_talker).1
unfolding construct
construct-IsTidy interface is_talker = ground arith

construct_evens :
    (interface : Option ℕ) (is_talker : Bool) (k : Kind) (h : ℕ)
    → times_acquired k h (construct interface is_talker).0
      ≡ times_released k h (construct interface is_talker).0
        + held (construct interface is_talker).1 k h
unfolding construct
construct_evens none is_talker nub h = ground arith
construct_evens none is_talker k h = ground arith
construct_evens (some i) is_talker nub h = ground arith
construct_evens (some i) is_talker k h = ground arith

-- From its creation on, whatever is called, whatever the framework answers and whenever it calls back,
-- provided that a port and a channel are set up only while the manager has none: when the manager is
-- destroyed, each object, dispatcher and reference has been released as often as it was acquired.
pub lifetime_releases :
    (interface : Option ℕ) (is_talker : Bool) (cs : List Call) (k : Kind) (h : ℕ)
    → AllFit (construct interface is_talker).1 cs
    → let (made, m) = construct interface is_talker in
      let (used, m') = history m cs in
      let es = made ++ (used ++ (reset m').0) in times_acquired k h es ≡ times_released k h es
lifetime_releases interface is_talker cs k h v =
    let m = (construct interface is_talker).1 in
    let m' = (history m cs).1 in
    let used = history-Balances m cs (construct-IsTidy interface is_talker) v in
    let all = Balances-append {m'' = (reset m').1} used (record { evens = reset_evens m' }) in
    omega (
      arith,
      acquired-append k h (construct interface is_talker).0 ((history m cs).0 ++ (reset m').0),
      released-append k h (construct interface is_talker).0 ((history m cs).0 ++ (reset m').0),
      all.evens k h,
      reset-holds m' k h,
      construct_evens interface is_talker k h,
    )
