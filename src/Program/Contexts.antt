-- ===== src/Program/Contexts.antt =====
-- What the steps of the service (src/c++/systemicai/http/server/service.hpp) leave of the listener and of
-- the connections behind it.
use advanced_flex_server.Common.{
  ℕ, zero, suc, ◌-◌, true, List, [], Option, none, some, ◌≡◌, refl, sym, subst, arith, Bytes,
  some-injective, c_str,
}
use advanced_flex_server.Errors.{ErrorCode}
use advanced_flex_server.ServerSettings.{Settings}
use advanced_flex_server.Listener.{Listener, AcceptorCall}
use advanced_flex_server.Listener.Connections.{opened-Serves}
use advanced_flex_server.Service.{
  Service, IoContext, Caller, away, in_run, joining, new_io, thread_count, serve, start, stop,
}
use advanced_flex_server.Service.Steps.{
  ServiceEvent, starts, stops, signals, thread_exits, caller_exits, joined, on_signal, exit_thread,
  exit_caller, finish, step,
}
use advanced_flex_server.Service.Phases.{spawn_lem}
use advanced_flex_server.Server.{Shared, Link}
use advanced_flex_server.Server.Sessions.{ServerRan}
use advanced_flex_server.Program.{links_on}

module _ (sh : Shared) (s : Settings) where
  -- Without a listener there are no connections; those of a listener have run from their beginning.
  abbrev pub ListenerRan : Option Listener → List Link → Type 0
  ListenerRan none links = links ≡ []
  ListenerRan (some l) links =
      ServerRan sh s.document_root s (record { listener = l; links = links })

  abbrev pub ContextRan : Option IoContext → List Link → Type 0
  ContextRan none links = links ≡ []
  ContextRan (some io) links = ListenerRan io.listener links

module _ (sh : Shared) (make_address : Bytes → Option Bytes)
    (reported : AcceptorCall → ErrorCode) where
  serve-ran :
      (address : Bytes) (threads : ℕ) (sv : Service)
      → ((serve make_address reported address threads sv).settings ≡ sv.settings)
        × ContextRan sh sv.settings (serve make_address reported address threads sv).ioc []
  unfolding serve new_io
  serve-ran address threads sv =
      rw spawn_lem
        (refl, ((0, _, opened-Serves reported _ sv.settings.document_root sv.settings), tt))

  -- How a call of `start` ends where there is no context.
  start-idle :
      (found : Option Bytes) (sv : Service)
      → make_address (c_str sv.settings.interface_address) ≡ found
      → sv.ioc ≡ none
      → ((start make_address reported sv).settings ≡ sv.settings)
        × ContextRan sh sv.settings (start make_address reported sv).ioc []
  unfolding start new_io
  start-idle none sv e idle = rw (idle, e) (refl, refl)
  start-idle (some address) sv e idle =
      rw (idle, e) (serve-ran address (thread_count sv.settings.thread_io) sv)

  pub start-ran :
      (ioc : Option IoContext) (links : List Link) (sv : Service)
      → sv.ioc ≡ ioc
      → ContextRan sh sv.settings ioc links
      → ((start make_address reported sv).settings ≡ sv.settings)
        × ContextRan sh sv.settings (start make_address reported sv).ioc links
  unfolding start
  start-ran none links sv e v = rw v (start-idle _ sv refl e)
  start-ran (some io) links sv e v = rw e (refl, v)

  links_on-ran :
      (s : Settings) (ioc : Option IoContext) (links : List Link)
      → ContextRan sh s ioc links
      → ContextRan sh s ioc (links_on ioc links)
  unfolding links_on
  links_on-ran s none links v = refl
  links_on-ran s (some io) links v = v

  -- What a step of the service leaves.
  abbrev pub Left : List Link → Service → Service → Type 0
  Left links sv sv' =
      (sv'.settings ≡ sv.settings) × ContextRan sh sv.settings sv'.ioc (links_on sv'.ioc links)

  same-Left :
      (links : List Link) (sv sv' : Service)
      → sv'.settings ≡ sv.settings
      → sv'.ioc ≡ sv.ioc
      → ContextRan sh sv.settings sv.ioc links
      → Left links sv sv'
  same-Left links sv sv' settings ioc v = (
    settings,
    subst (λ t. ContextRan sh sv.settings t (links_on t links)) (sym ioc)
        (links_on-ran sv.settings sv.ioc links v),
  )

  stop-Left :
      (ioc : Option IoContext) (links : List Link) (sv sv' : Service)
      → sv.ioc ≡ ioc
      → ContextRan sh sv.settings ioc links
      → stop sv ≡ some sv'
      → Left links sv sv'
  unfolding stop links_on
  stop-Left none links sv sv' e v h = ground (arith, e)
  stop-Left (some io) links sv sv' e v h =
      let same = some-injective _ _ (rw (e, stop) at h) in rw (← same) (refl, v)

  on_signal-context :
      (io : IoContext) (sv sv' : Service)
      → sv.ioc ≡ some io
      → on_signal sv ≡ some sv'
      → (n : ℕ) × (sv'.ioc ≡ some (record io { signal_waits = n; stopped = true }))
        × (sv'.settings ≡ sv.settings)
  unfolding on_signal
  on_signal-context io sv sv' e h = (io.signal_waits - 1, ground (arith, e), ground (arith, e))

  on_signal-Left :
      (ioc : Option IoContext) (links : List Link) (sv sv' : Service)
      → sv.ioc ≡ ioc
      → ContextRan sh sv.settings ioc links
      → on_signal sv ≡ some sv'
      → Left links sv sv'
  unfolding on_signal links_on
  on_signal-Left none links sv sv' e v h = ground (arith, e)
  on_signal-Left (some io) links sv sv' e v h =
      let (n, same, settings) = on_signal-context io sv sv' e h in (settings, rw same v)

  exit_thread-Left :
      (n : ℕ) (links : List Link) (sv sv' : Service)
      → ContextRan sh sv.settings sv.ioc links
      → exit_thread n sv ≡ some sv'
      → Left links sv sv'
  unfolding exit_thread
  exit_thread-Left zero links sv sv' v h = cc
  exit_thread-Left (suc n) links sv sv' v h = same-Left links sv sv' (ground arith) (ground arith) v

  exit_caller-Left :
      (c : Caller) (links : List Link) (sv sv' : Service)
      → ContextRan sh sv.settings sv.ioc links
      → exit_caller c sv ≡ some sv'
      → Left links sv sv'
  unfolding exit_caller
  exit_caller-Left away links sv sv' v h = cc
  exit_caller-Left in_run links sv sv' v h = same-Left links sv sv' (ground arith) (ground arith) v
  exit_caller-Left joining links sv sv' v h = cc

  finish-Left :
      (c : Caller) (n : ℕ) (links : List Link) (sv sv' : Service)
      → finish c n sv ≡ some sv'
      → Left links sv sv'
  unfolding finish links_on
  finish-Left away n links sv sv' h = cc
  finish-Left in_run n links sv sv' h = cc
  finish-Left joining zero links sv sv' h =
      let same = some-injective _ _ h in rw (← same) (refl, refl)
  finish-Left joining (suc n) links sv sv' h = cc

  pub step-Left :
      (e : ServiceEvent) (links : List Link) (sv sv' : Service)
      → ContextRan sh sv.settings sv.ioc links
      → step make_address reported e sv ≡ some sv'
      → Left links sv sv'
  unfolding step
  step-Left starts links sv sv' v h =
      let (settings, ran) = start-ran sv.ioc links sv refl v in
      let same = some-injective _ _ h in
      rw (← same)
        (settings, links_on-ran sv.settings (start make_address reported sv).ioc links ran)
  step-Left stops links sv sv' v h = stop-Left sv.ioc links sv sv' refl v h
  step-Left signals links sv sv' v h = on_signal-Left sv.ioc links sv sv' refl v h
  step-Left thread_exits links sv sv' v h = exit_thread-Left sv.pool links sv sv' v h
  step-Left caller_exits links sv sv' v h = exit_caller-Left sv.caller links sv sv' v h
  step-Left joined links sv sv' v h = finish-Left sv.caller sv.pool links sv sv' h
