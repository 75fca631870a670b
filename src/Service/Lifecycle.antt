-- ===== src/Service/Lifecycle.antt =====
-- The life of a service (src/c++/systemicai/http/server/service.hpp) as a state machine of four stages.
use advanced_flex_server.Common.{
  ℕ, zero, suc, List, [], ◌∷◌, ◌++◌, Option, none, some, Bytes, ◌≡◌, inl, inr, refl, subst, arith,
  true, Option-cases, some-injective, c_str, run_all, run_all-split,
}
use advanced_flex_server.Errors.{ErrorCode}
use advanced_flex_server.ServerSettings.{Settings}
use advanced_flex_server.Listener.{AcceptorCall}
use advanced_flex_server.Service.{
  Service, IoContext, exit_failure, Caller, away, in_run, joining, new_service, new_io, stop, start,
  is_some,
}
use advanced_flex_server.Service.Steps.{
  ServiceEvent, starts, stops, signals, thread_exits, caller_exits, joined, on_signal, exit_thread,
  exit_caller, finish, step, steps,
}
use advanced_flex_server.Service.Phases.{IsIdle, IsServing, IsStopping, IsLeftOver, serve-IsServing}

pub data Stage : Type 0 where
  idle serving stopping left_over : Stage

-- Which events are possible at which stage, and what they lead to.
pub data Moves : ServiceEvent → Stage → Stage → Type 0 where
  start_serving : Moves starts idle serving
  start_throws : Moves starts idle left_over
  already_serving : Moves starts serving serving
  still_stopping : Moves starts stopping stopping
  refused : Moves starts left_over left_over
  stop_serving : Moves stops serving stopping
  stop_again : Moves stops stopping stopping
  stop_in_vain : Moves stops left_over left_over
  signal_serving : Moves signals serving stopping
  signal_late : Moves signals stopping stopping
  thread_leaves : Moves thread_exits stopping stopping
  caller_leaves : Moves caller_exits stopping stopping
  return : Moves joined stopping idle

-- The stages that a row of events leads through.
pub data Lives : List ServiceEvent → Stage → Stage → Type 0 where
  over : {a : Stage} → Lives [] a a
  then_ :
      {e : ServiceEvent} {es : List ServiceEvent} {a b c : Stage}
      → Moves e a b
      → Lives es b c
      → Lives (e ∷ es) a c

abbrev pub waits_of : Option IoContext → ℕ
waits_of none = 0
waits_of (some io) = io.signal_waits

-- What a service is at a stage, with Service/Phases; one that is left over waits for no signal.
abbrev pub IsAt : Settings → Stage → Service → Type 0
IsAt s idle sv = IsIdle sv
IsAt s serving sv = IsServing s sv
IsAt s stopping sv = IsStopping s sv
IsAt s left_over sv = IsLeftOver sv × (waits_of sv.ioc ≡ 0)

abbrev Leads : Settings → ServiceEvent → Stage → Service → Type 0
Leads s e a sv' = (b : Stage) × Moves e a b × (sv'.settings ≡ s) × IsAt s b sv'

stop-Leads :
    (s : Settings) (a : Stage) (sv sv' : Service)
    → sv.settings ≡ s
    → IsAt s a sv
    → stop sv ≡ some sv'
    → Leads s stops a sv'
unfolding stop
stop-Leads s idle sv sv' k v h = ground arith
stop-Leads s serving sv sv' k v h = (stopping, stop_serving, ground arith, ground arith)
stop-Leads s stopping sv sv' k v h = (stopping, stop_again, ground arith, ground arith)
stop-Leads s left_over sv sv' k v h = (left_over, stop_in_vain, ground arith, ground arith)

on_signal-Leads :
    (s : Settings) (a : Stage) (sv sv' : Service)
    → sv.settings ≡ s
    → IsAt s a sv
    → on_signal sv ≡ some sv'
    → Leads s signals a sv'
unfolding on_signal
on_signal-Leads s idle sv sv' k v h = ground arith
on_signal-Leads s serving sv sv' k v h = (stopping, signal_serving, ground arith, ground arith)
on_signal-Leads s stopping sv sv' k v h = (stopping, signal_late, ground arith, ground arith)
on_signal-Leads s left_over sv sv' k v h = ground arith

exit_thread-Leads :
    (n : ℕ) (s : Settings) (a : Stage) (sv sv' : Service)
    → sv.pool ≡ n
    → sv.settings ≡ s
    → IsAt s a sv
    → exit_thread n sv ≡ some sv'
    → Leads s thread_exits a sv'
unfolding exit_thread
exit_thread-Leads zero s a sv sv' e k v h = cc
exit_thread-Leads (suc n) s idle sv sv' e k v h = ground arith
exit_thread-Leads (suc n) s serving sv sv' e k v h = ground arith
exit_thread-Leads (suc n) s stopping sv sv' e k v h =
    (stopping, thread_leaves, ground arith, ground arith)
exit_thread-Leads (suc n) s left_over sv sv' e k v h = ground arith

exit_caller-Leads :
    (c : Caller) (s : Settings) (a : Stage) (sv sv' : Service)
    → sv.caller ≡ c
    → sv.settings ≡ s
    → IsAt s a sv
    → exit_caller c sv ≡ some sv'
    → Leads s caller_exits a sv'
unfolding exit_caller
exit_caller-Leads c s idle sv sv' e k v h = ground arith
exit_caller-Leads c s serving sv sv' e k v h = ground arith
exit_caller-Leads c s stopping sv sv' e k v h =
    (stopping, caller_leaves, ground arith, ground arith)
exit_caller-Leads c s left_over sv sv' e k v h = ground arith

finish-Leads :
    (c : Caller) (n : ℕ) (s : Settings) (a : Stage) (sv sv' : Service)
    → sv.caller ≡ c
    → sv.pool ≡ n
    → sv.settings ≡ s
    → IsAt s a sv
    → finish c n sv ≡ some sv'
    → Leads s joined a sv'
unfolding finish
finish-Leads away n s a sv sv' e f k v h = cc
finish-Leads in_run n s a sv sv' e f k v h = cc
finish-Leads joining (suc n) s a sv sv' e f k v h = cc
finish-Leads joining zero s idle sv sv' e f k v h = ground arith
finish-Leads joining zero s serving sv sv' e f k v h = ground arith
finish-Leads joining zero s stopping sv sv' e f k v h = (idle, return, ground arith, ground arith)
finish-Leads joining zero s left_over sv sv' e f k v h = ground arith

module _ (make_address : Bytes → Option Bytes) (reported : AcceptorCall → ErrorCode) where
  starting-Leads :
      (s : Settings) (sv : Service)
      → sv.settings ≡ s
      → IsIdle sv
      → Leads s starts idle (start make_address reported sv)
  unfolding start new_io
  starting-Leads s sv k (unset, none_left, out) =
      elim (Option-cases (make_address (c_str sv.settings.interface_address))) [
        | inl bad ↦ (left_over, start_throws, rw (unset, bad) k, rw (unset, bad) (ground arith))
        | inr (address, good) ↦
            let (kept, at_work) = serve-IsServing make_address reported address s sv k none_left in
            (serving, start_serving, rw (unset, good) kept, rw (unset, good) at_work)
      ]

  again_start :
      (sv : Service)
      → is_some sv.ioc ≡ true
      → start make_address reported sv ≡ record sv { exits = sv.exits ++ exit_failure ∷ [] }
  unfolding start
  again_start sv set = rw set refl

  start-Leads :
      (s : Settings) (a : Stage) (sv : Service)
      → sv.settings ≡ s
      → IsAt s a sv
      → Leads s starts a (start make_address reported sv)
  start-Leads s idle sv k v = starting-Leads s sv k v
  start-Leads s serving sv k v = rw (again_start sv v.0) (serving, already_serving, k, v)
  start-Leads s stopping sv k v = rw (again_start sv v.0) (stopping, still_stopping, k, v)
  start-Leads s left_over sv k v = rw (again_start sv v.0.0) (left_over, refused, k, v)

  step-Leads :
      (e : ServiceEvent) (s : Settings) (a : Stage) (sv sv' : Service)
      → sv.settings ≡ s
      → IsAt s a sv
      → step make_address reported e sv ≡ some sv'
      → Leads s e a sv'
  unfolding step
  step-Leads starts s a sv sv' k v h =
      subst (Leads s starts a) (some-injective _ _ h) (start-Leads s a sv k v)
  step-Leads stops s a sv sv' k v h = stop-Leads s a sv sv' k v h
  step-Leads signals s a sv sv' k v h = on_signal-Leads s a sv sv' k v h
  step-Leads thread_exits s a sv sv' k v h = exit_thread-Leads sv.pool s a sv sv' refl k v h
  step-Leads caller_exits s a sv sv' k v h = exit_caller-Leads sv.caller s a sv sv' refl k v h
  step-Leads joined s a sv sv' k v h = finish-Leads sv.caller sv.pool s a sv sv' refl refl k v h

  living-Lives :
      (es : List ServiceEvent) (s : Settings) (a : Stage) (sv sv' : Service)
      → sv.settings ≡ s
      → IsAt s a sv
      → steps make_address reported es sv ≡ some sv'
      → (b : Stage) × Lives es a b × (sv'.settings ≡ s) × IsAt s b sv'
  unfolding run_all
  living-Lives [] s a sv sv' k v h =
      subst (λ t. (b : Stage) × Lives [] a b × (t.settings ≡ s) × IsAt s b t) (some-injective _ _ h)
        (a, over, k, v)
  living-Lives (e ∷ es) s a sv sv' k v h =
      let (t, first, rest) = run_all-split (step make_address reported) e es sv sv' h in
      let (b, moved, k', v') = step-Leads e s a sv t k v first in
      let (c, lived, k'', v'') = living-Lives es s b t sv' k' v' rest in
      (c, then_ moved lived, k'', v'')

  -- A service goes through its stages only as the state machine of `Moves` allows, one move for each
  -- event of its schedule. Idle: it has no context, and no thread is at work. Serving: the context
  -- has a listener and is not stopped, and exactly as many threads run it as the settings ask for,
  -- but at least one, the caller of `start` among them. Stopping: the context is stopped, and the
  -- caller has not returned yet. Left over: `start` has thrown, and there is a context without a
  -- listener that no thread runs, and that no event makes the service leave. Its settings stay the
  -- same.
  pub steps-Lives :
      (es : List ServiceEvent) (s : Settings) (sv : Service)
      → steps make_address reported es (new_service s) ≡ some sv
      → (a : Stage) × Lives es idle a × (sv.settings ≡ s) × IsAt s a sv
  unfolding new_service
  steps-Lives es s sv h = living-Lives es s idle (new_service s) sv refl (refl, refl, refl) h
