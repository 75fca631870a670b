-- ===== src/Service/Phases.antt =====
-- The states that a service of src/c++/systemicai/http/server/service.hpp can be in.
use advanced_flex_server.Common.{
  run_all-keeps, Bool, ℕ, ◌+◌, ◌≤◌, List, Option, none, some, Bytes, zero, suc, true, false, ◌≡◌,
  refl, ◌⊎◌, inl, inr, arith, Option-cases, ◌↔◌, c_str, Bool-cases, ℤ, pos, negsuc, ap, ◌∙◌,
  some-injective,
}
use advanced_flex_server.Errors.{ErrorCode}
use advanced_flex_server.ServerSettings.{Settings}
use advanced_flex_server.Listener.{AcceptorCall}
use advanced_flex_server.Service.{
  Service, IoContext, Caller, away, in_run, joining, new_service, running, thread_count, new_io,
  spawn, stop, serve, start, is_some,
}
use advanced_flex_server.Service.Steps.{
  ServiceEvent, starts, stops, signals, thread_exits, caller_exits, joined, on_signal, is_stopped,
  exit_thread, exit_caller, finish, step, steps,
}

regroup :
    (sv : Service) (n : ℕ)
    → ◌≡◌ {A = Service}
        (record sv { pool = sv.pool + 1 + n })
        (record sv { pool = sv.pool + suc n })
regroup sv n =
    let e : sv.pool + 1 + n ≡ sv.pool + suc n = omega arith in
    ap (λ (p : ℕ). record sv { pool = p }) e

pub spawn_lem : (n : ℕ) (sv : Service) → spawn n sv ≡ record sv { pool = sv.pool + n }
unfolding spawn
spawn_lem zero sv = ground arith
spawn_lem (suc n) sv = spawn_lem n (record sv { pool = sv.pool + 1 }) ∙ regroup sv n

pub thread_count-pos : (i : ℤ) → 1 ≤ thread_count i
unfolding thread_count
thread_count-pos (pos n) = ground arith
thread_count-pos (negsuc n) = ground arith

abbrev pub has_listener : Option IoContext → Bool
has_listener none = false
has_listener (some io) = is_some io.listener

abbrev pub IsIdle : Service → Type 0
IsIdle sv = (is_some sv.ioc ≡ false) × (sv.pool ≡ 0) × (sv.caller ≡ away)

abbrev pub IsServing : Settings → Service → Type 0
IsServing s sv =
    (is_some sv.ioc ≡ true)
    × (is_stopped sv.ioc ≡ false)
    × (has_listener sv.ioc ≡ true)
    × (sv.pool + 1 ≡ thread_count s.thread_io)
    × (sv.caller ≡ in_run)

abbrev pub IsStopping : Settings → Service → Type 0
IsStopping s sv =
    (is_some sv.ioc ≡ true)
    × (is_stopped sv.ioc ≡ true)
    × (sv.pool + 1 ≤ thread_count s.thread_io)
    × ((sv.caller ≡ in_run) ⊎ (sv.caller ≡ joining))

-- `start` has thrown, and the context is still there.
abbrev pub IsLeftOver : Service → Type 0
IsLeftOver sv =
    (is_some sv.ioc ≡ true) × (has_listener sv.ioc ≡ false) × (sv.pool ≡ 0) × (sv.caller ≡ away)

abbrev pub Phase : Settings → Service → Type 0
Phase s sv = (sv.settings ≡ s) × (IsIdle sv ⊎ (IsServing s sv ⊎ (IsStopping s sv ⊎ IsLeftOver sv)))

stop-Phase :
    (s : Settings) (sv : Service) → Phase s sv → (sv' : Service) → stop sv ≡ some sv' → Phase s sv'
unfolding stop
stop-Phase s sv v sv' h = ground arith

on_signal-Phase :
    (s : Settings) (sv : Service)
    → Phase s sv
    → (sv' : Service) → on_signal sv ≡ some sv'
    → Phase s sv'
unfolding on_signal
on_signal-Phase s sv v sv' h = ground arith

exit_thread-Phase :
    (n : ℕ) (s : Settings) (sv sv' : Service)
    → sv.pool ≡ n
    → Phase s sv
    → exit_thread n sv ≡ some sv'
    → Phase s sv'
unfolding exit_thread
exit_thread-Phase zero s sv sv' e v h = cc
exit_thread-Phase (suc n) s sv sv' e v h = ground arith

exit_caller-Phase :
    (c : Caller) (s : Settings) (sv sv' : Service)
    → sv.caller ≡ c
    → Phase s sv
    → exit_caller c sv ≡ some sv'
    → Phase s sv'
unfolding exit_caller
exit_caller-Phase c s sv sv' e v h = ground arith

finish-Phase :
    (c : Caller) (n : ℕ) (s : Settings) (sv sv' : Service)
    → sv.pool ≡ n
    → Phase s sv
    → finish c n sv ≡ some sv'
    → Phase s sv'
unfolding finish
finish-Phase joining zero s sv sv' e v h = ground arith
finish-Phase joining (suc n) s sv sv' e v h = cc
finish-Phase away n s sv sv' e v h = cc
finish-Phase in_run n s sv sv' e v h = cc

-- What `running` says in each phase.
forth :
    (s : Settings) (sv : Service)
    → IsIdle sv ⊎ (IsServing s sv ⊎ (IsStopping s sv ⊎ IsLeftOver sv))
    → running sv ≡ true
    → IsServing s sv ⊎ (IsLeftOver sv × (is_stopped sv.ioc ≡ false))
unfolding running
forth s sv v up = ground arith

back :
    (s : Settings) (sv : Service)
    → IsServing s sv ⊎ (IsLeftOver sv × (is_stopped sv.ioc ≡ false))
    → running sv ≡ true
unfolding running
back s sv v = ground arith

module _ (make_address : Bytes → Option Bytes) (reported : AcceptorCall → ErrorCode) where
  pub serve-IsServing :
      (address : Bytes) (s : Settings) (sv : Service)
      → sv.settings ≡ s
      → sv.pool ≡ 0
      → (((serve make_address reported address (thread_count sv.settings.thread_io) sv).settings
            ≡ s)
          × IsServing s
              (serve make_address reported address (thread_count sv.settings.thread_io) sv))
  unfolding serve new_io
  serve-IsServing address s sv e none_left =
      let enough = thread_count-pos s.thread_io in
      let same = ap (λ (t : Settings). thread_count t.thread_io) e in
      rw (spawn_lem, none_left) (e, (refl, refl, refl, omega (arith, enough, same), refl))

  start-Phase :
      (s : Settings) (sv : Service) → Phase s sv → Phase s (start make_address reported sv)
  unfolding start new_io
  start-Phase s sv v = elim (Bool-cases (is_some sv.ioc)) [
    | inl set ↦ rw set v
    | inr unset ↦ elim (Option-cases (make_address (c_str sv.settings.interface_address))) [
      | inl bad ↦ rw (unset, bad) (ground arith)
      | inr (address, good) ↦
          let none_left : sv.pool ≡ 0 = ground arith in
          let (kept, at_work) = serve-IsServing address s sv v.0 none_left in
          rw (unset, good) (kept, inr (inl at_work))
    ]
  ]

  step-Phase :
      (e : ServiceEvent) (s : Settings) (sv sv' : Service)
      → Phase s sv
      → step make_address reported e sv ≡ some sv'
      → Phase s sv'
  unfolding step
  step-Phase starts s sv sv' v h =
      let same : start make_address reported sv ≡ sv' = some-injective _ _ h in
      rw (← same) (start-Phase s sv v)
  step-Phase stops s sv sv' v h = stop-Phase s sv v sv' h
  step-Phase signals s sv sv' v h = on_signal-Phase s sv v sv' h
  step-Phase thread_exits s sv sv' v h = exit_thread-Phase sv.pool s sv sv' refl v h
  step-Phase caller_exits s sv sv' v h = exit_caller-Phase sv.caller s sv sv' refl v h
  step-Phase joined s sv sv' v h = finish-Phase sv.caller sv.pool s sv sv' refl v h

  kept_Phase :
      (es : List ServiceEvent) (s : Settings) (sv sv' : Service)
      → Phase s sv
      → steps make_address reported es sv ≡ some sv'
      → Phase s sv'
  kept_Phase es s sv sv' v h =
      run_all-keeps (step make_address reported) (Phase s) (λ e t u. step-Phase e s t u) es sv sv' v
        h

  -- After any schedule a service is in one of four phases. Idle: it has no context, and no thread is
  -- at work. Serving: the context has a listener and is not stopped, and exactly as many threads run
  -- it as the settings ask for, but at least one, the caller of `start` among them. Stopping: the
  -- context is stopped, and the caller has not returned yet. Left over: `start` has thrown, and there
  -- is a context without a listener that no thread runs. So no thread outlives the context.
  pub steps-Phase :
      (es : List ServiceEvent) (s : Settings) (sv : Service)
      → steps make_address reported es (new_service s) ≡ some sv
      → Phase s sv
  unfolding new_service
  steps-Phase es s sv h = kept_Phase es s (new_service s) sv (refl, inl (refl, refl, refl)) h

  -- After any schedule `running` is true exactly when the service is serving, or when `start` has
  -- thrown and the context that it has left has not been stopped.
  pub running_iff :
      (es : List ServiceEvent) (s : Settings) (sv : Service)
      → steps make_address reported es (new_service s) ≡ some sv
      → (running sv ≡ true) ↔ (IsServing s sv ⊎ (IsLeftOver sv × (is_stopped sv.ioc ≡ false)))
  unfolding running
  running_iff es s sv h =
      let v = (steps-Phase es s sv h).1 in
      (λ (up : running sv ≡ true). forth s sv v up, λ working. back s sv working)
