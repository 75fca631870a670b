-- ===== src/Service/Shutdown.antt =====
-- How a service of src/c++/systemicai/http/server/service.hpp ends.
use advanced_flex_server.Common.{
  run_all, ℕ, List, [], ◌∷◌, ◌++◌, Option, none, some, Bytes, zero, suc, true, ◌≡◌, refl, ap, ◌∙◌,
}
use advanced_flex_server.Errors.{ErrorCode}
use advanced_flex_server.Listener.{AcceptorCall}
use advanced_flex_server.Service.{
  Service, IoContext, exit_success, Caller, away, in_run, joining, stop,
}
use advanced_flex_server.Service.Steps.{
  ServiceEvent, stops, thread_exits, caller_exits, joined, is_stopped, exit_thread, exit_caller,
  finish, step, steps,
}

exit_thread_lem :
    (m n : ℕ) (sv : Service)
    → m ≡ suc n
    → is_stopped sv.ioc ≡ true
    → exit_thread m sv ≡ some (record sv { pool = n })
unfolding exit_thread
exit_thread_lem m n sv e h = rw (e, h) refl

exit_caller_lem :
    (c : Caller) (sv : Service)
    → c ≡ in_run
    → is_stopped sv.ioc ≡ true
    → exit_caller c sv ≡ some (record sv { caller = joining })
unfolding exit_caller
exit_caller_lem c sv e h = rw (e, h) refl

finish_lem :
    (n : ℕ) (sv : Service)
    → n ≡ 0
    → finish joining n sv
      ≡ some (record sv { ioc = none; caller = away; exits = sv.exits ++ exit_success ∷ [] })
unfolding finish
finish_lem n sv e = rw e refl

abbrev pub exits_of : ℕ → List ServiceEvent → List ServiceEvent
exits_of zero es = es
exits_of (suc n) es = thread_exits ∷ exits_of n es

module _ (make_address : Bytes → Option Bytes) (reported : AcceptorCall → ErrorCode) where
  threads_exit :
      (n : ℕ) (es : List ServiceEvent) (sv : Service)
      → sv.pool ≡ n
      → is_stopped sv.ioc ≡ true
      → steps make_address reported (exits_of n es) sv
        ≡ steps make_address reported es (record sv { pool = 0 })
  unfolding run_all step
  threads_exit zero es sv p h =
      ap (λ (x : Service). steps make_address reported es x)
        (ap (λ (q : ℕ). record sv { pool = q }) p)
  threads_exit (suc n) es sv p h =
      rw (exit_thread_lem sv.pool n sv p h, run_all)
        (threads_exit n es (record sv { pool = n }) refl h)

  stop_steps :
      (es : List ServiceEvent) (sv : Service) (io : IoContext)
      → sv.ioc ≡ some io
      → steps make_address reported (stops ∷ es) sv
        ≡ steps make_address reported es (record sv { ioc = some (record io { stopped = true }) })
  unfolding run_all step stop
  stop_steps es sv io e = rw e refl

  last_steps :
      (sv : Service)
      → sv.caller ≡ in_run
      → sv.pool ≡ 0
      → is_stopped sv.ioc ≡ true
      → steps make_address reported (caller_exits ∷ joined ∷ []) sv
        ≡ some (record sv { ioc = none; caller = away; exits = sv.exits ++ exit_success ∷ [] })
  unfolding run_all step
  last_steps sv c p h =
      rw
        (
          exit_caller_lem sv.caller sv c h,
          run_all,
          finish_lem sv.pool (record sv { caller = joining }) p,
        )
        refl

  -- A service whose caller is in the `run` of its context can be stopped: after `stop` its threads can
  -- return, and its caller joins them; then `start` has returned EXIT_SUCCESS, and the service has
  -- no context and no threads, as before it was started.
  pub stop_completes :
      (sv : Service) (io : IoContext)
      → sv.ioc ≡ some io
      → sv.caller ≡ in_run
      → steps make_address reported (stops ∷ exits_of sv.pool (caller_exits ∷ joined ∷ [])) sv
        ≡ some (record sv {
          ioc = none;
          pool = 0;
          caller = away;
          exits = sv.exits ++ exit_success ∷ [];
        })
  stop_completes sv io e c =
      let stopped : Service = record sv { ioc = some (record io { stopped = true }) } in
      stop_steps (exits_of sv.pool (caller_exits ∷ joined ∷ [])) sv io e
      ∙ threads_exit sv.pool (caller_exits ∷ joined ∷ []) stopped refl refl
      ∙ last_steps (record stopped { pool = 0 }) c refl refl
