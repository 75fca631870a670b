-- ===== src/Service.antt =====
-- The service (src/c++/systemicai/http/server/service.hpp). `start` blocks: its caller and the threads
-- that it has spawned are part of the state, and what they do next are steps of the child `Steps`.
-- `make_address` is Boost's; the codes that the acceptor's calls report are a parameter.
pub mod Steps
pub mod Phases
pub mod Lifecycle
pub mod Shutdown
pub mod Refusal
mod Tests
use advanced_flex_server.Common.{
  ℕ, ◌+◌, ◌-◌, ℤ, pos, negsuc, Bool, true, false, not, List, [], ◌∷◌, ◌++◌, Option, none, some,
  Bytes, zero, suc, if◌then◌else◌, leb, c_str,
}
use advanced_flex_server.Errors.{ErrorCode}
use advanced_flex_server.ServerSettings.{Settings}
use advanced_flex_server.Listener.{Listener, AcceptorCall, new_listener, run as run_listener}

-- The `io_context`: its concurrency hint, the listener on it, the waits for a signal.
pub record IoContext : Type 0 where
  pub concurrency : ℕ
  pub listener : Option Listener
  pub signal_waits : ℕ
  pub stopped : Bool

-- How a call of `start` ends.
pub data Exit : Type 0 where
  exit_success exit_failure invalid_address : Exit

-- The thread that has called `start`: not in it, in the `run` of the context, or joining the threads.
pub data Caller : Type 0 where
  away in_run joining : Caller

-- `pool` counts the spawned threads that have not exited; `exits` are the calls of `start` that have
-- ended, oldest first.
pub record Service : Type 0 where
  pub settings : Settings
  pub ioc : Option IoContext
  pub pool : ℕ
  pub caller : Caller
  pub exits : List Exit

unfoldable pub new_service : Settings → Service
new_service s = record { settings = s; ioc = none; pool = 0; caller = away; exits = [] }

-- `std::max<int>(1, settings_.thread_io)`.
unfoldable pub thread_count : ℤ → ℕ
thread_count (pos n) = if leb 1 n then n else 1
thread_count (negsuc n) = 1

-- The loop that spawns the threads.
unfoldable pub spawn : ℕ → Service → Service
spawn zero sv = sv
spawn (suc i) sv = spawn i (record sv { pool = sv.pool + 1 })

unfoldable pub new_io : ℕ → IoContext
new_io threads = record {
  concurrency = threads;
  listener = none;
  signal_waits = 0;
  stopped = false;
}

abbrev pub is_some {ℓ} : {A : Type ℓ} → Option A → Bool
is_some none = false
is_some (some a) = true

unfoldable pub running : Service → Bool
running sv = elim sv.ioc [ none ↦ false | some io ↦ not io.stopped ]

-- `none`: the context is a null pointer.
unfoldable pub stop : Service → Option Service
stop sv = elim sv.ioc [
  | none ↦ none
  | some io ↦ some (record sv { ioc = some (record io { stopped = true }) })
]

module _ (make_address : Bytes → Option Bytes) (reported : AcceptorCall → ErrorCode) where
  -- The part of `start` from the listener on, up to its `run` of the context.
  unfoldable pub serve : Bytes → ℕ → Service → Service
  unfolding run_listener new_listener new_io spawn
  serve address threads sv =
      let s = sv.settings in
      let listener = run_listener (
        new_listener reported (record { address = address; port = s.interface_port })
          s.document_root s) in
      spawn (threads - 1) (record sv {
        ioc = some (record (new_io threads) { listener = some listener; signal_waits = 1 });
        caller = in_run;
      })

  -- `start`, up to the point where it blocks. If the address is not valid, `make_address` throws.
  unfoldable pub start : Service → Service
  start sv =
      if is_some sv.ioc
      then record sv { exits = sv.exits ++ exit_failure ∷ [] }
      else let threads = thread_count sv.settings.thread_io in
        elim (make_address (c_str sv.settings.interface_address)) [
          | none ↦ record sv {
            ioc = some (new_io threads);
            exits = sv.exits ++ invalid_address ∷ [];
          }
          | some address ↦ serve address threads sv
        ]
