-- ===== src/Service/Tests.antt =====
-- Schedules of a service of src/c++/systemicai/http/server/service.hpp, and the witnesses.
use advanced_flex_server.Common.{
  run_all, ◌⊎◌, List, [], ◌∷◌, ◌++◌, Option, none, some, ◌≡◌, refl, Bytes, c_str, true, pos,
}
use advanced_flex_server.Errors.{ErrorCode, success}
use advanced_flex_server.ServerSettings.{Settings}
use advanced_flex_server.ServerSettings.Sample.{default_settings}
use advanced_flex_server.Listener.{
  AcceptorCall, new_listener, attempt, run as run_listener, do_accept,
}
use advanced_flex_server.Service.{
  Service, IoContext, exit_success, away, in_run, new_service, thread_count, new_io, spawn, stop,
  serve, start, is_some,
}
use advanced_flex_server.Service.Steps.{
  ServiceEvent, starts, stops, signals, thread_exits, caller_exits, joined, on_signal, exit_thread,
  exit_caller, finish, step, steps,
}
use advanced_flex_server.Service.Lifecycle.{Stage, idle, Lives, IsAt, steps-Lives}
use advanced_flex_server.Service.Refusal.{count_starts, refusals, refused_forever}
use advanced_flex_server.Service.Shutdown.{exits_of, stop_completes}

abbrev three_threads : Settings
three_threads = record default_settings { thread_io = pos 3 }

-- A text of one byte is an address, and no other is.
abbrev loopback : Bytes → Option Bytes
loopback (b ∷ []) = some (127 ∷ 0 ∷ 0 ∷ 1 ∷ [])
loopback _ = none

abbrev at_loopback : Settings
at_loopback = record three_threads { interface_address = 1 ∷ [] }

abbrev ready : AcceptorCall → ErrorCode
ready call = success

opened : Unit {0}
unfolding run_all step start serve new_io spawn thread_count new_service new_listener attempt
    run_listener do_accept stop on_signal exit_thread exit_caller finish c_str count_starts
opened = tt

abbrev or_new : Option Service → Service
or_new none = new_service three_threads
or_new (some sv) = sv

-- A signal comes, and one thread has left.
abbrev signalled : List ServiceEvent
signalled = starts ∷ starts ∷ signals ∷ thread_exits ∷ []

after_signal : Service
unfolding opened
after_signal = or_new (steps loopback ready signalled (new_service at_loopback))

after_signal_lem : steps loopback ready signalled (new_service at_loopback) ≡ some after_signal
unfolding opened after_signal
after_signal_lem = refl

steps-Lives_example :
    (a : Stage) × Lives signalled idle a
    × (after_signal.settings ≡ at_loopback)
    × IsAt at_loopback a after_signal
steps-Lives_example = steps-Lives loopback ready signalled at_loopback after_signal after_signal_lem

-- The address of these settings is not valid here.
abbrev in_vain : List ServiceEvent
in_vain = starts ∷ stops ∷ starts ∷ []

after_in_vain : Service
unfolding opened
after_in_vain = or_new (steps loopback ready in_vain (new_service three_threads))

in_vain_lem : steps loopback ready in_vain (new_service three_threads) ≡ some after_in_vain
unfolding opened after_in_vain
in_vain_lem = refl

not_valid : loopback (c_str three_threads.interface_address) ≡ none
unfolding opened
not_valid = refl

refused_forever_example :
    (after_in_vain.exits ≡ refusals (count_starts in_vain))
    × (after_in_vain.pool ≡ 0)
    × (after_in_vain.caller ≡ away)
    × ((count_starts in_vain ≡ 0) ⊎ (is_some after_in_vain.ioc ≡ true))
refused_forever_example =
    refused_forever loopback ready three_threads in_vain after_in_vain not_valid in_vain_lem

at_work : Service
unfolding opened
at_work = start loopback ready (new_service at_loopback)

abbrev or_io : Option IoContext → IoContext
or_io none = record { concurrency = 0; listener = none; signal_waits = 0; stopped = true }
or_io (some io) = io

has_context : at_work.ioc ≡ some (or_io at_work.ioc)
unfolding opened at_work
has_context = refl

in_run_lem : at_work.caller ≡ in_run
unfolding opened at_work
in_run_lem = refl

stop_completes_example :
    steps loopback ready (stops ∷ exits_of at_work.pool (caller_exits ∷ joined ∷ [])) at_work
    ≡ some (record at_work {
      ioc = none;
      pool = 0;
      caller = away;
      exits = at_work.exits ++ exit_success ∷ [];
    })
stop_completes_example =
    stop_completes loopback ready at_work (or_io at_work.ioc) has_context in_run_lem
