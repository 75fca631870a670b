-- ===== src/Server.antt =====
-- The whole server: the listener with its detectors (src/c++/systemicai/http/server/server.cpp) and the
-- HTTP and WebSocket sessions of its connections (src/c++/systemicai/http/server/sessions.hpp), whose
-- operations complete in any order.
pub mod Links
pub mod Sessions
pub mod Outlived
pub mod Lifetime
pub mod Progress
pub mod Sample
mod Tests
use advanced_flex_server.Common.{
  run_all, false, ℕ, Bool, List, [], ◌∷◌, Option, none, some, Bytes, zero, suc, if◌then◌else◌,
}
use advanced_flex_server.Errors.{ErrorCode}
use advanced_flex_server.ServerSettings.{Settings}
use advanced_flex_server.Handler.{Request, Response, Platform, HandlerFunction}
use advanced_flex_server.Session.{Session, Context}
use advanced_flex_server.Session.Wire.{Wire, Event, deliver}
use advanced_flex_server.WebSocket.Wire.{WsWire, WsEvent, open_wire, complete as complete_ws}
use advanced_flex_server.Detector.{Detector, Launch}
use advanced_flex_server.Detector.Schedules.{DetectorEvent}
use advanced_flex_server.Listener.{
  Listener, AcceptorCall, Endpoint, new_listener, run as run_listener,
}
use advanced_flex_server.Listener.Events.{
  ListenerEvent, accept_done, progress, complete as complete_listener,
}

-- What the sessions of every connection share. `need_eof` and `version_string` are Boost's. A session is
-- constructed with a reference to the settings of its detector and keeps the reference, but the
-- detector is destroyed when `on_detect` has returned. What is read through the reference from then
-- on the language leaves open; `dangling` is what it is, where the settings were these.
pub record Shared : Type 0 where
  pub platform : Platform
  pub handlers : List (HandlerFunction Session)
  pub need_eof : Response → Bool
  pub version_string : Bytes
  pub dangling : Settings → Settings

-- A connection behind its detector: what was launched with its HTTP session, and the WebSocket session
-- that this has made.
pub record Link : Type 0 where
  pub http : Option (Launch × Wire)
  pub websocket : Option WsWire

-- One link for each detector of the listener, in the same order.
pub record Server : Type 0 where
  pub listener : Listener
  pub links : List Link

abbrev pub new_link : Link
new_link = record { http = none; websocket = none }

-- The connection of a session that has just been launched.
unfoldable pub attach : Launch → Wire
attach launch = record {
  session = launch.session;
  requests = [];
  transmitted = [];
  read_over = false;
}

-- A link takes up the session that its detector has launched.
unfoldable pub join : List Launch → Link → Link
unfolding attach
join launched link = elim link.http [
  | some busy ↦ link
  | none ↦ elim launched [
    | [] ↦ link
    | launch ∷ rest ↦ record link { http = some (launch, attach launch) }
  ]
]

-- Links for the detectors, after a step of the listener.
unfoldable pub refresh : List Detector → List Link → List Link
unfolding join
refresh [] links = []
refresh (d ∷ ds) [] = join d.launched new_link ∷ refresh ds []
refresh (d ∷ ds) (link ∷ links) = join d.launched link ∷ refresh ds links

module _ (sh : Shared) where
  -- What a session goes by: what is shared, the document root that it was launched with, and what is read
  -- through its reference to the settings.
  abbrev pub context : Launch → Context
  context launch = record {
    platform = sh.platform;
    handlers = sh.handlers;
    doc_root = launch.doc_root;
    settings = sh.dangling launch.settings;
    need_eof = sh.need_eof;
  }

  -- The WebSocket session for the request that the HTTP session has moved out.
  unfoldable pub open_websocket : List Request → Option WsWire → Option WsWire
  open_websocket upgrades (some ws) = some ws
  open_websocket [] none = none
  open_websocket (req ∷ rest) none = some (open_wire sh.version_string req)

  -- A completion of the HTTP session, and one of the WebSocket session.
  unfoldable pub http_step : Event → Link → Option Link
  unfolding open_websocket
  http_step e link = elim link.http [
    | none ↦ none
    | some (launch, w) ↦ elim (deliver (context launch) e w) [
      | none ↦ none
      | some w' ↦ some (record {
        http = some (launch, w');
        websocket = open_websocket w'.session.upgrades link.websocket;
      })
    ]
  ]

unfoldable pub websocket_step : WsEvent → Link → Option Link
websocket_step e link = elim link.websocket [
  | none ↦ none
  | some v ↦ elim (complete_ws e v) [
    | none ↦ none
    | some v' ↦ some (record link { websocket = some v' })
  ]
]

-- A step at one of the links.
unfoldable pub step_at : (Link → Option Link) → ℕ → List Link → Option (List Link)
step_at f i [] = none
step_at f zero (link ∷ links) = elim (f link) [ none ↦ none | some link' ↦ some (link' ∷ links) ]
step_at f (suc i) (link ∷ links) = elim (step_at f i links) [
  | none ↦ none
  | some links' ↦ some (link ∷ links')
]

-- A completion of the listener or of a detector, or one of the sessions of connection `i`.
pub data ServerEvent : Type 0 where
  listening : ListenerEvent → ServerEvent
  http_done : ℕ → Event → ServerEvent
  websocket_done : ℕ → WsEvent → ServerEvent

unfoldable pub listener_step : ListenerEvent → Server → Option Server
listener_step e sv = elim (complete_listener e sv.listener) [
  | none ↦ none
  | some l ↦ some (record { listener = l; links = refresh l.detectors sv.links })
]

unfoldable pub links_step : Option (List Link) → Server → Option Server
links_step links sv = elim links [
  | none ↦ none
  | some stepped ↦ some (record sv { links = stepped })
]

module _ (sh : Shared) where
  unfoldable pub serve_step : ServerEvent → Server → Option Server
  serve_step (listening e) sv = listener_step e sv
  serve_step (http_done i e) sv = links_step (step_at (http_step sh e) i sv.links) sv
  serve_step (websocket_done i e) sv = links_step (step_at (websocket_step e) i sv.links) sv

  abbrev pub serve_all : List ServerEvent → Server → Option Server
  serve_all es sv = run_all serve_step es sv

-- The server with a listener that has just been run.
unfoldable pub open_server : (AcceptorCall → ErrorCode) → Endpoint → Bytes → Settings → Server
unfolding run_listener new_listener
open_server reported endpoint doc_root s = record {
  listener = run_listener (new_listener reported endpoint doc_root s);
  links = [];
}
