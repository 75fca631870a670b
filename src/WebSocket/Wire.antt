-- ===== src/WebSocket/Wire.antt =====
-- A WebSocket session of src/c++/systemicai/http/server/sessions.hpp on its connection: completions in
-- any order in which they may come, the messages that were read and those that were written.
use advanced_flex_server.Common.{
  run_all, ℕ, List, [], ◌∷◌, ◌++◌, Option, none, some, Bytes, zero, suc, if◌then◌else◌,
}
use advanced_flex_server.Errors.{ErrorCode, is_error}
use advanced_flex_server.Handler.{Request}
use advanced_flex_server.WebSocket.{
  Message, WsSession, make_websocket_session, on_accept, on_read, on_write,
}

-- A read puts the bytes of one message into the buffer, behind what is there.
pub data WsEvent : Type 0 where
  accept_done : ErrorCode → WsEvent
  message_done : ErrorCode → Message → WsEvent
  echo_done : ErrorCode → WsEvent

pub record WsWire : Type 0 where
  pub session : WsSession
  pub received : List Message
  pub echoed : List Message

unfoldable pub open_wire : Bytes → Request → WsWire
unfolding make_websocket_session
open_wire version req = record {
  session = make_websocket_session version req;
  received = [];
  echoed = [];
}

unfoldable pub complete_accept : List Request → ErrorCode → WsWire → Option WsWire
unfolding on_accept
complete_accept [] ec w = none
complete_accept (req ∷ rest) ec w =
    some (record w { session = on_accept ec (record w.session { accepts = rest }) })

unfoldable pub complete_read : ℕ → ErrorCode → Message → WsWire → Option WsWire
complete_read zero ec msg w = none
complete_read (suc n) ec msg w = some (record w {
  session = on_read ec (record w.session {
    reads = n;
    buffer = w.session.buffer ++ msg.payload;
    got_text = msg.is_text;
  });
  received = if is_error ec then w.received else w.received ++ msg ∷ [];
})

unfoldable pub complete_write : List Message → ErrorCode → WsWire → Option WsWire
unfolding on_write
complete_write [] ec w = none
complete_write (msg ∷ rest) ec w = some (record w {
  session = on_write ec (record w.session { writes = rest });
  echoed = if is_error ec then w.echoed else w.echoed ++ msg ∷ [];
})

-- One completion; `none` if no such operation is outstanding.
unfoldable pub complete : WsEvent → WsWire → Option WsWire
unfolding complete_accept complete_read complete_write
complete (accept_done ec) w = complete_accept w.session.accepts ec w
complete (message_done ec msg) w = complete_read w.session.reads ec msg w
complete (echo_done ec) w = complete_write w.session.writes ec w

abbrev pub complete_all : List WsEvent → WsWire → Option WsWire
complete_all es w = run_all complete es w
