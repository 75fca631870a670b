-- ===== src/Service/Steps.antt =====
-- The steps of the service of src/c++/systemicai/http/server/service.hpp: the calls of other threads,
-- signals, and what the threads do that run the context.
use advanced_flex_server.Common.{
  run_all, ℕ, List, [], ◌∷◌, ◌++◌, Option, none, some, Bytes, zero, suc, Bool, true, false,
  if◌then◌else◌,
}
use advanced_flex_server.Errors.{ErrorCode}
use advanced_flex_server.Listener.{AcceptorCall}
use advanced_flex_server.Service.{
  Service, IoContext, exit_success, Caller, away, in_run, joining, start, stop,
}

-- `signals`: SIGINT or SIGTERM. `thread_exits`: a spawned thread returns from `run`, `caller_exits`: the
-- caller of `start` does. `joined`: this caller has joined all threads, resets the context and returns.
pub data ServiceEvent : Type 0 where
  starts stops signals thread_exits caller_exits joined : ServiceEvent

-- The handler of the signals stops the context.
unfoldable pub on_signal : Service → Option Service
on_signal sv = elim sv.ioc [
  | none ↦ none
  | some io ↦ elim io.signal_waits [
    | zero ↦ none
    | suc n ↦ some (record sv { ioc = some (record io { signal_waits = n; stopped = true }) })
  ]
]

abbrev pub is_stopped : Option IoContext → Bool
is_stopped none = false
is_stopped (some io) = io.stopped

-- `run` returns once the context is stopped: there is always an accept that it can wait for.
unfoldable pub exit_thread : ℕ → Service → Option Service
exit_thread zero sv = none
exit_thread (suc n) sv = if is_stopped sv.ioc then some (record sv { pool = n }) else none

unfoldable pub exit_caller : Caller → Service → Option Service
exit_caller in_run sv = if is_stopped sv.ioc then some (record sv { caller = joining }) else none
exit_caller other sv = none

unfoldable pub finish : Caller → ℕ → Service → Option Service
finish joining zero sv =
    some (record sv { ioc = none; caller = away; exits = sv.exits ++ exit_success ∷ [] })
finish other n sv = none

module _ (make_address : Bytes → Option Bytes) (reported : AcceptorCall → ErrorCode) where
  -- `none`: the step is not possible.
  unfoldable pub step : ServiceEvent → Service → Option Service
  unfolding start stop on_signal exit_thread exit_caller finish
  step starts sv = some (start make_address reported sv)
  step stops sv = stop sv
  step signals sv = on_signal sv
  step thread_exits sv = exit_thread sv.pool sv
  step caller_exits sv = exit_caller sv.caller sv
  step joined sv = finish sv.caller sv.pool sv

  abbrev pub steps : List ServiceEvent → Service → Option Service
  steps es sv = run_all step es sv
