-- ===== src/Server/Tests.antt =====
-- A schedule of the whole server of src/c++/systemicai/http/server/server.cpp with two connections.
use advanced_flex_server.Common.{
  ◌++◌, true, false, List, [], ◌∷◌, Option, none, some, ◌≡◌, refl, codes, run_all, find,
  starts_with, eq_bytes, c_str, rfind,
}
use advanced_flex_server.Errors.{ErrorCode, success}
use advanced_flex_server.Functions.{path_cat, mime_type}
use advanced_flex_server.ServerSettings.Sample.{default_settings}
use advanced_flex_server.Handler.{Request, get, default_handle_request, handle_request}
use advanced_flex_server.Handler.Answer.{answer}
use advanced_flex_server.Handler.Sample.{ask}
use advanced_flex_server.Session.{queue_send}
use advanced_flex_server.Session.Wire.{read_done, write_done, deliver}
use advanced_flex_server.WebSocket.{make_websocket_session, on_accept, on_read}
use advanced_flex_server.WebSocket.Wire.{
  open_wire, complete as complete_ws, complete_accept as complete_accept_ws, complete_read,
}
use advanced_flex_server.WebSocket.Wire as WebSocketWire
use advanced_flex_server.Detector.{new_detector, run as run_detector, on_run, on_detect}
use advanced_flex_server.Detector.Schedules.{
  dispatched, detected, step, call_on_run, call_on_detect,
}
use advanced_flex_server.Listener.{
  AcceptorCall, Endpoint, new_listener, run as run_listener, on_accept as on_accept_listener,
}
use advanced_flex_server.Listener.Events.{
  accept_done, progress, complete as complete_listener, complete_accept, progress_at,
}
use advanced_flex_server.Server.{
  Server, ServerEvent, listening, http_done, websocket_done, attach, join, refresh, open_websocket,
  http_step, websocket_step, step_at, listener_step, links_step, serve_step, serve_all, open_server,
}
use advanced_flex_server.Server.Sample.{shared}
use advanced_flex_server.Server.Outlived.{AllOutlived}
use advanced_flex_server.Server.Lifetime.{serve_all-Outlived}

abbrev ready : AcceptorCall → ErrorCode
ready call = success

abbrev here : Endpoint
here = record { address = 127 ∷ 0 ∷ 0 ∷ 1 ∷ []; port = 8080 }

abbrev index : Request
index = ask get (codes "/")

-- Two connections are accepted, and their sessions launched.
abbrev arrivals : List ServerEvent
arrivals =
    listening (accept_done success)
    ∷ listening (accept_done success)
    ∷ listening (progress 1 dispatched)
    ∷ listening (progress 0 dispatched)
    ∷ listening (progress 1 (detected success false []))
    ∷ listening (progress 0 (detected success false []))
    ∷ []

-- Connection 0 reads a request, and connection 1 is asked to become a WebSocket.
abbrev read_0 : ServerEvent
read_0 = http_done 0 (read_done success index [])

abbrev read_1 : ServerEvent
read_1 = http_done 1 (read_done success (record index { is_upgrade = true }) [])

-- The answer goes out, and a message comes in.
abbrev exchange : List ServerEvent
exchange =
    websocket_done 1 (WebSocketWire.accept_done success)
    ∷ http_done 0 (write_done success)
    ∷ websocket_done 1
        (WebSocketWire.message_done success (record { payload = codes "hi"; is_text = true }))
    ∷ []

abbrev visits : List ServerEvent
visits = arrivals ++ read_0 ∷ read_1 ∷ exchange

opened : Unit {0}
unfolding answer find starts_with eq_bytes c_str rfind path_cat mime_type default_handle_request
    handle_request queue_send deliver run_all make_websocket_session on_accept on_read open_wire
    complete_ws complete_accept_ws complete_read new_detector run_detector on_run on_detect step
    call_on_run call_on_detect new_listener run_listener on_accept_listener complete_listener
    complete_accept progress_at attach join refresh open_websocket http_step websocket_step step_at
    listener_step links_step serve_step open_server
opened = tt

abbrev or_open : Option Server → Server
or_open none = open_server ready here (codes "html") default_settings
or_open (some sv) = sv

after_visits : Server
unfolding opened
after_visits =
    or_open (serve_all shared visits (open_server ready here (codes "html") default_settings))

visits_lem :
    serve_all shared visits (open_server ready here (codes "html") default_settings)
    ≡ some after_visits
unfolding opened after_visits
visits_lem = refl

serve_all-Outlived_example : AllOutlived after_visits.listener.detectors after_visits.links
serve_all-Outlived_example =
    serve_all-Outlived shared (codes "html") default_settings ready here visits after_visits
      visits_lem
