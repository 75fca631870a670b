-- ===== src/WebSocket.antt =====
-- A WebSocket session (src/c++/systemicai/http/server/sessions.hpp, `websocket_session`; the two derived
-- classes only hold the stream). Its outstanding operations are part of its state.
pub mod Wire
pub mod Echo
pub mod Exchange
mod Tests
use advanced_flex_server.Common.{
  ℕ, ◌+◌, Bool, true, false, List, [], ◌∷◌, ◌++◌, Option, none, some, Bytes, codes, length, drop,
  if◌then◌else◌,
}
use advanced_flex_server.Errors.{ErrorCode, is_error, Log, fail}
use advanced_flex_server.Handler.{Request}

-- A message: its bytes, and whether it is text (or binary).
pub record Message : Type 0 where
  pub payload : Bytes
  pub is_text : Bool

-- The buffer; what is set on the stream (the suggested timeouts, the `Server` field of the handshake,
-- the mode of outgoing messages) and what it tells (the mode of the last message); the outstanding
-- operations; the error stream.
pub record WsSession : Type 0 where
  pub buffer : Bytes
  pub suggested_timeout : Bool
  pub server_field : Option Bytes
  pub text : Bool
  pub got_text : Bool
  pub accepts : List Request
  pub reads : ℕ
  pub writes : List Message
  pub log : Log

-- As it is constructed from a stream.
unfoldable pub new_ws_session : WsSession
new_ws_session = record {
  buffer = [];
  suggested_timeout = false;
  server_field = none;
  text = true;
  got_text = false;
  accepts = [];
  reads = 0;
  writes = [];
  log = [];
}

-- `version` is BOOST_BEAST_VERSION_STRING.
unfoldable pub do_accept : Bytes → Request → WsSession → WsSession
do_accept version req ws = record ws {
  suggested_timeout = true;
  server_field = some (version ++ codes " advanced-server-flex");
  accepts = ws.accepts ++ req ∷ [];
}

unfoldable pub run : Bytes → Request → WsSession → WsSession
unfolding do_accept
run version req ws = do_accept version req ws

-- `make_websocket_session`: a new session, run with the request.
unfoldable pub make_websocket_session : Bytes → Request → WsSession
unfolding new_ws_session run
make_websocket_session version req = run version req new_ws_session

unfoldable pub do_read : WsSession → WsSession
do_read ws = record ws { reads = ws.reads + 1 }

unfoldable pub on_accept : ErrorCode → WsSession → WsSession
unfolding do_read fail
on_accept ec ws = if is_error ec then record ws { log = fail ec "accept" ws.log } else do_read ws

abbrev pub is_closed : ErrorCode → Bool
is_closed ErrorCode.closed = true
is_closed _ = false

-- The message in the buffer is written back, in the mode in which it has come.
unfoldable pub on_read : ErrorCode → WsSession → WsSession
unfolding fail
on_read ec ws =
    if is_closed ec
    then ws
    else if is_error ec
    then record ws { log = fail ec "read" ws.log }
    else record ws {
      text = ws.got_text;
      writes = ws.writes ++ record { payload = ws.buffer; is_text = ws.got_text } ∷ [];
    }

-- The buffer is cleared for the next read.
unfoldable pub on_write : ErrorCode → WsSession → WsSession
unfolding do_read fail
on_write ec ws =
    if is_error ec
    then record ws { log = fail ec "write" ws.log }
    else do_read (record ws { buffer = drop (length ws.buffer) ws.buffer })
