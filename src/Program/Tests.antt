-- ===== src/Program/Tests.antt =====
-- A run of the program of src/c++/systemicai/cmd/httpd.cpp, from its settings file to a response.
use advanced_flex_server.Common.{
  ℕ, length, false, true, List, [], ◌∷◌, Option, none, some, ◌≡◌, refl, codes, map, lower, run_all,
  find, starts_with, eq_bytes, c_str, rfind,
}
use advanced_flex_server.Errors.{success}
use advanced_flex_server.Functions.{path_cat, mime_type}
use advanced_flex_server.PropertyTree.Sample.{sample_tree}
use advanced_flex_server.ServerSettings.{load}
use advanced_flex_server.Handler.{get, default_handle_request, handle_request}
use advanced_flex_server.Handler.Answer.{answer}
use advanced_flex_server.Handler.Sample.{ask}
use advanced_flex_server.Session.{queue_send, new_session, plain}
use advanced_flex_server.Session.Specification.{Pipeline}
use advanced_flex_server.Server.Progress.{session_at}
use advanced_flex_server.Session.Wire.{Wire, start as start_session, read_done, write_done, deliver}
use advanced_flex_server.Detector.{Launch, new_detector, run as run_detector, on_run, on_detect}
use advanced_flex_server.Detector.Schedules.{
  dispatched, detected, step as step_detector, call_on_run, call_on_detect,
}
use advanced_flex_server.Listener.{
  new_listener, run as run_listener, on_accept as on_accept_listener,
}
use advanced_flex_server.Listener.Events.{
  accept_done, progress, complete as complete_listener, complete_accept, progress_at,
}
use advanced_flex_server.Logging.{Logging, filter_by}
use advanced_flex_server.Certificate.{
  SslContext, load_files, load_streams, check, call, file_stream,
}
use advanced_flex_server.Service.{
  Service, new_service, start, serve, new_io, spawn, thread_count, stop,
}
use advanced_flex_server.Service.Steps.{stops, step}
use advanced_flex_server.Command.{
  Surroundings, Course, started, run_main, globals, serve_with, set_log_filter,
}
use advanced_flex_server.Command.Startup.{file_settings}
use advanced_flex_server.Server.{
  Link, listening, http_done, attach, join, refresh, open_websocket, http_step, websocket_step,
  step_at, listener_step, links_step, serve_step,
}
use advanced_flex_server.Server.Sample.{shared}
use advanced_flex_server.Program.{
  Program, ProgramEvent, at_service, serving, links_on, put_server, service_step, handler_step,
  context_step, program_step, program_run,
}

-- A settings file that asks for another document root.
abbrev root_tree : sample_tree.Tree
root_tree = sample_tree.store sample_tree.empty "document.root" (codes "public")

abbrev surroundings : Surroundings sample_tree
surroundings = record {
  to_lower = map lower;
  read_json = λ path. some root_tree;
  read_file = λ path. some path;
  rejects = λ ctx c. false;
  make_address = λ text. some text;
  reported = λ c. success;
}

abbrev no_filter : Logging
no_filter = record { filter = none; unknown = [] }

-- One connection, on which a request is answered before the service is stopped.
abbrev visit : List ProgramEvent
visit =
    serving (listening (accept_done success))
    ∷ serving (listening (progress 0 dispatched))
    ∷ serving (listening (progress 0 (detected success false [])))
    ∷ serving (http_done 0 (read_done success (ask get (codes "/")) []))
    ∷ serving (http_done 0 (write_done success))
    ∷ at_service stops
    ∷ []

opened : Unit {0}
unfolding answer find starts_with eq_bytes c_str rfind path_cat mime_type default_handle_request
    handle_request queue_send deliver run_all new_detector run_detector on_run on_detect
    step_detector call_on_run call_on_detect new_listener run_listener on_accept_listener
    complete_listener complete_accept progress_at attach join refresh open_websocket http_step
    websocket_step step_at listener_step links_step serve_step load filter_by load_files
    load_streams check call file_stream new_service start serve new_io spawn thread_count stop step
    run_main globals serve_with set_log_filter links_on put_server service_step handler_step
    context_step program_step
opened = tt

abbrev service_of : Course × Logging → Service
service_of (started ctx sv, l) = sv
service_of (other, l) = new_service (file_settings sample_tree surroundings root_tree)

abbrev context_of : Course × Logging → SslContext
context_of (started ctx sv, l) = ctx
context_of (other, l) = []

abbrev log_of : Course × Logging → Logging
log_of (course, l) = l

begun : Course × Logging
unfolding opened
begun = run_main sample_tree surroundings 2 (codes "cfg/settings.json") no_filter

abbrev at_first : Program
at_first = record { service = service_of begun; links = [] }

abbrev or_first : Option Program → Program
or_first none = at_first
or_first (some pr) = pr

after_visit : Program
unfolding opened begun
after_visit =
    or_first (program_run surroundings.make_address surroundings.reported shared visit at_first)

-- How many responses each connection has got.
abbrev sent : Option (Launch × Wire) → ℕ
sent none = 0
sent (some (launch, w)) = length w.transmitted

visit_sent : map (λ (link : Link). sent link.http) after_visit.links ≡ 1 ∷ []
unfolding opened begun after_visit
visit_sent = refl

-- The same connection while its request is answered, and the service goes on.
abbrev stay : List ProgramEvent
stay =
    serving (listening (accept_done success))
    ∷ serving (listening (progress 0 dispatched))
    ∷ serving (listening (progress 0 (detected success false [])))
    ∷ serving (http_done 0 (read_done success (ask get (codes "/")) []))
    ∷ []

during_stay : Program
unfolding opened begun
during_stay =
    or_first (program_run surroundings.make_address surroundings.reported shared stay at_first)

abbrev or_none : Option (Launch × Wire) → Launch × Wire
or_none none = (
  record {
    session = new_session plain [];
    doc_root = [];
    settings = file_settings sample_tree surroundings root_tree;
  },
  start_session plain [],
)
or_none (some found) = found

visitor : Launch × Wire
unfolding opened begun during_stay session_at
visitor = or_none (session_at 0 during_stay.links)

shown : Pipeline
unfolding opened begun during_stay session_at visitor
shown = record {
  accepted = visitor.1.requests;
  pending = visitor.1.session.items;
  delivered = visitor.1.transmitted;
  accepting = true;
  writing = true;
}
