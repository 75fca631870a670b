-- ===== src/Program.antt =====
-- The program as a whole: the service (src/c++/systemicai/http/server/service.hpp), whose context runs the
-- handlers of the server on it (src/c++/systemicai/http/server/server.cpp and sessions.hpp).
pub mod Contexts
pub mod Connections
pub mod Progress
mod Tests
use advanced_flex_server.Common.{
  Bool, true, false, not, ◌&&◌, ◌||◌, leb, ltb, List, [], ◌∷◌, Option, none, some, Bytes,
  if◌then◌else◌, run_all,
}
use advanced_flex_server.Errors.{ErrorCode}
use advanced_flex_server.Listener.{Listener, AcceptorCall}
use advanced_flex_server.Service.{Service, IoContext, Caller, in_run}
use advanced_flex_server.Service.Steps.{ServiceEvent, step}
use advanced_flex_server.Server.{Shared, Link, Server, ServerEvent, serve_step}

-- The service, and what is behind the detectors of the listener on its context.
pub record Program : Type 0 where
  pub service : Service
  pub links : List Link

-- A step of the service, or a handler that a thread of its context runs.
pub data ProgramEvent : Type 0 where
  at_service : ServiceEvent → ProgramEvent
  serving : ServerEvent → ProgramEvent

-- With its context go the sockets, and their sessions.
unfoldable pub links_on : Option IoContext → List Link → List Link
links_on none links = []
links_on (some io) links = links

abbrev pub is_in_run : Caller → Bool
is_in_run in_run = true
is_in_run other = false

-- Whether a thread is in the `run` of the context.
abbrev pub at_work : Service → Bool
at_work sv = ltb 0 sv.pool || is_in_run sv.caller

-- The outcome of a handler, put back.
unfoldable pub put_server : Program → IoContext → Server → Program
put_server pr io sv = record {
  service = record pr.service { ioc = some (record io { listener = some sv.listener }) };
  links = sv.links;
}

module _ (make_address : Bytes → Option Bytes) (reported : AcceptorCall → ErrorCode)
    (sh : Shared) where
  unfoldable pub service_step : ServiceEvent → Program → Option Program
  unfolding links_on
  service_step e pr = elim (step make_address reported e pr.service) [
    | none ↦ none
    | some sv ↦ some (record { service = sv; links = links_on sv.ioc pr.links })
  ]

  -- A handler that the context runs: not once it has been stopped.
  unfoldable pub handler_step : ServerEvent → Option Listener → IoContext → Program → Option Program
  unfolding serve_step put_server
  handler_step e none io pr = none
  handler_step e (some l) io pr =
      if io.stopped
      then none
      else elim (serve_step sh e (record { listener = l; links = pr.links })) [
        | none ↦ none
        | some sv ↦ some (put_server pr io sv)
      ]

  unfoldable pub context_step : ServerEvent → Option IoContext → Program → Option Program
  unfolding handler_step
  context_step e none pr = none
  context_step e (some io) pr =
      if at_work pr.service then handler_step e io.listener io pr else none

  unfoldable pub program_step : ProgramEvent → Program → Option Program
  unfolding service_step context_step
  program_step (at_service e) pr = service_step e pr
  program_step (serving e) pr = context_step e pr.service.ioc pr

  abbrev pub program_run : List ProgramEvent → Program → Option Program
  program_run es pr = run_all program_step es pr
