-- ===== src/Session.antt =====
-- An HTTP session (src/c++/systemicai/http/server/sessions.hpp, `http_session` with its queue and the
-- classes derived from it). The operations that a session has started and that have not completed
-- are part of its state; the child `Wire` delivers their completions.
pub mod Wire
pub mod Queue
pub mod Invariant
pub mod Schedules
pub mod Flow
pub mod Pipelining
pub mod Upgrade
pub mod Drain
pub mod Closing
pub mod Settling
pub mod Rest
pub mod LastResponse
pub mod Specification
pub mod Simulation
pub mod Refinement
pub mod Availability
mod Endings
mod Tests
use advanced_flex_server.Common.{
  ℕ, ◌+◌, Bool, true, false, not, ◌||◌, List, [], ◌∷◌, ◌++◌, Option, none, some, Bytes, length,
  drop, ltb, leb, ◌==◌, if◌then◌else◌, zero, suc,
}
use advanced_flex_server.Errors.{ErrorCode, is_error, Log, fail}
use advanced_flex_server.ServerSettings.{Settings}
use advanced_flex_server.Handler.{Request, Response, Platform, HandlerFunction, handle_request}

-- The derived classes: `plain_http_session` and `ssl_http_session`.
pub data Kind : Type 0 where
  plain ssl : Kind

-- The stream of the session: in use, shut down for sending, or moved to a WebSocket session.
pub data Stream : Type 0 where
  open_stream send_shutdown released : Stream

pub record Session : Type 0 where
  pub kind : Kind
  pub items : List Response
  pub parser : Option ℕ
  pub buffer : Bytes
  pub timeout : Option ℕ
  pub stream : Stream
  pub reads : ℕ
  pub writes : List Response
  pub handshakes : ℕ
  pub shutdowns : ℕ
  pub upgrades : List Request
  pub log : Log

-- What a session refers to; `settings` is what it reads through its reference to settings. `need_eof` is Boost's: whether the connection ends with this response.
pub record Context : Type 0 where
  pub platform : Platform
  pub handlers : List (HandlerFunction Session)
  pub doc_root : Bytes
  pub settings : Settings
  pub need_eof : Response → Bool

-- Maximum number of responses in the queue.
abbrev pub limit : ℕ
limit = 8

-- `work_impl::operator()`: an `async_write` of the response.
unfoldable pub start_write : Response → Session → Session
start_write res ss = record ss { writes = ss.writes ++ res ∷ [] }

-- `(*items_.front())()`.
unfoldable pub start_front : Session → Session
unfolding start_write
start_front ss = elim ss.items [ [] ↦ ss | front ∷ rest ↦ start_write front ss ]

unfoldable pub is_full : Session → Bool
is_full ss = leb limit (length ss.items)

-- `queue::on_write`, with the result "was full"; `none` is the failure of its assertion.
unfoldable pub queue_on_write : Session → Option (Session × Bool)
unfolding start_front is_full
queue_on_write ss = elim ss.items [
  | [] ↦ none
  | sent ∷ rest ↦ some (start_front (record ss { items = rest }), is_full ss)
]

-- `queue::operator()`: called by the handler to send a response.
unfoldable pub queue_send : Response → Session → Session
unfolding start_front
queue_send res ss =
    let queued = record ss { items = ss.items ++ res ∷ [] } in
    if length queued.items == 1 then start_front queued else queued

-- A new parser with a limit of 10000 bytes, a timeout of 30 seconds, and an `async_read`.
unfoldable pub do_read : Session → Session
do_read ss = record ss { parser = some 10000; timeout = some 30; reads = ss.reads + 1 }

-- `plain_http_session::do_eof`: the socket is shut down for sending.
plain_do_eof : Session → Session
plain_do_eof ss = record ss { stream = send_shutdown }

-- `ssl_http_session::do_eof`: an SSL shutdown with a timeout of 30 seconds.
ssl_do_eof : Session → Session
ssl_do_eof ss = record ss { timeout = some 30; shutdowns = ss.shutdowns + 1 }

unfoldable pub do_eof : Session → Session
unfolding plain_do_eof ssl_do_eof
do_eof ss = elim ss.kind [ plain ↦ plain_do_eof ss | ssl ↦ ssl_do_eof ss ]

-- `make_websocket_session` with the stream and the request moved out of the session.
unfoldable pub upgrade : Request → Session → Session
upgrade req ss = record ss { timeout = none; stream = released; upgrades = ss.upgrades ++ req ∷ [] }

abbrev pub is_end_of_stream : ErrorCode → Bool
is_end_of_stream ErrorCode.end_of_stream = true
is_end_of_stream _ = false

-- `plain_http_session::run`.
plain_run : Session → Session
unfolding do_read
plain_run ss = do_read ss

-- `ssl_http_session::run`: the handshake, with a timeout of 30 seconds.
ssl_run : Session → Session
ssl_run ss = record ss { timeout = some 30; handshakes = ss.handshakes + 1 }

unfoldable pub run : Session → Session
unfolding plain_run ssl_run
run ss = elim ss.kind [ plain ↦ plain_run ss | ssl ↦ ssl_run ss ]

unfoldable pub on_handshake : ErrorCode → ℕ → Session → Session
unfolding do_read fail
on_handshake ec bytes_used ss =
    if is_error ec
    then record ss { log = fail ec "handshake" ss.log }
    else do_read (record ss { buffer = drop bytes_used ss.buffer })

unfoldable pub on_shutdown : ErrorCode → Session → Session
unfolding fail
on_shutdown ec ss = if is_error ec then record ss { log = fail ec "shutdown" ss.log } else ss

module _ (ctx : Context) where
  open ctx use {platform, handlers, doc_root, settings, need_eof}

  -- The completion of `async_read` with the request that the parser holds.
  unfoldable pub on_read : ErrorCode → Request → Session → Session
  unfolding do_eof upgrade do_read is_full fail
  on_read ec req ss =
      if is_end_of_stream ec
      then do_eof ss
      else if is_error ec
      then record ss { log = fail ec "read" ss.log }
      else if req.is_upgrade
      then upgrade req ss
      else let answered = handle_request platform handlers doc_root req queue_send settings ss in
        if not (is_full answered) then do_read answered else answered

-- The completion of `async_write`; `none` is the failure of the queue's assertion.
unfoldable pub on_write : Bool → ErrorCode → Session → Option Session
unfolding do_eof queue_on_write do_read fail
on_write close ec ss =
    if is_error ec
    then some (record ss { log = fail ec "write" ss.log })
    else if close
    then some (do_eof ss)
    else elim (queue_on_write ss) [
      | none ↦ none
      | some (rest, was_full) ↦ some (if was_full then do_read rest else rest)
    ]

-- A session as it is constructed: nothing is outstanding.
unfoldable pub new_session : Kind → Bytes → Session
new_session kind buffer = record {
  kind = kind;
  items = [];
  parser = none;
  buffer = buffer;
  timeout = none;
  stream = open_stream;
  reads = 0;
  writes = [];
  handshakes = 0;
  shutdowns = 0;
  upgrades = [];
  log = [];
}
