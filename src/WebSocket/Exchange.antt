-- ===== src/WebSocket/Exchange.antt =====
-- A WebSocket session of src/c++/systemicai/http/server/sessions.hpp whose operations all succeed.
use advanced_flex_server.Common.{
  run_all, List, [], ◌∷◌, ◌++◌, some, ◌≡◌, refl, sym, ap, ◌∙◌, Bytes, length, drop, drop-length,
  append-nil, append_assoc,
}
use advanced_flex_server.Errors.{success}
use advanced_flex_server.Handler.{Request}
use advanced_flex_server.WebSocket.{
  Message, on_accept, on_read, on_write, do_read, make_websocket_session, run, do_accept,
  new_ws_session,
}
use advanced_flex_server.WebSocket.Wire.{
  WsEvent, accept_done, message_done, echo_done, WsWire, open_wire, complete_accept, complete_read,
  complete_write, complete, complete_all,
}

-- Each message is received, and then its echo is sent.
unfoldable pub exchange : List Message → List WsEvent
exchange [] = []
exchange (msg ∷ msgs) = message_done success msg ∷ echo_done success ∷ exchange msgs

record IsReading (w : WsWire) : Type 0 where
  accepts : w.session.accepts ≡ []
  reads : w.session.reads ≡ 1
  writes : w.session.writes ≡ []
  buffer : w.session.buffer ≡ []

exchange_one :
    (msg : Message) (w : WsWire)
    → IsReading w
    → (w' : WsWire) × IsReading w'
      × (w'.echoed ≡ w.echoed ++ msg ∷ [])
      × ((es : List WsEvent)
          → complete_all (message_done success msg ∷ echo_done success ∷ es) w ≡ complete_all es w')
unfolding run_all complete complete_read complete_write on_read on_write do_read
exchange_one msg w r =
    let w' : WsWire = record w {
      session = record w.session {
        buffer = drop (length msg.payload) msg.payload;
        got_text = msg.is_text;
        text = msg.is_text;
        reads = 1;
        writes = [];
      };
      received = w.received ++ msg ∷ [];
      echoed = w.echoed ++ msg ∷ [];
    } in
    (
      w',
      record { accepts = r.accepts; reads = refl; writes = refl; buffer = drop-length msg.payload },
      refl,
      λ es. rw (r.reads, r.writes, r.buffer) refl,
    )

exchange_all :
    (msgs : List Message) (w : WsWire)
    → IsReading w
    → (w' : WsWire) × (complete_all (exchange msgs) w ≡ some w') × (w'.echoed ≡ w.echoed ++ msgs)
unfolding exchange run_all
exchange_all [] w r = (w, refl, sym (append-nil w.echoed))
exchange_all (msg ∷ msgs) w r =
    let (v, ready, sent, step) = exchange_one msg w r in
    let (w', done, all) = exchange_all msgs v ready in
    (
      w',
      step (exchange msgs) ∙ done,
      all ∙ ap (λ e. e ++ msgs) sent ∙ append_assoc w.echoed (msg ∷ []) msgs,
    )

accepted :
    (version : Bytes) (req : Request)
    → (w : WsWire) × IsReading w
      × (w.echoed ≡ [])
      × ((es : List WsEvent)
          → complete_all (accept_done success ∷ es) (open_wire version req) ≡ complete_all es w)
unfolding run_all complete complete_accept on_accept do_read open_wire make_websocket_session run
    do_accept new_ws_session
accepted version req =
    let w : WsWire = record {
      session = do_read (record (make_websocket_session version req) { accepts = [] });
      received = [];
      echoed = [];
    } in
    (w, record { accepts = refl; reads = refl; writes = refl; buffer = refl }, refl, λ es. refl)

-- A client whose handshake succeeds, and that sends messages one after another while no operation
-- fails, gets each of them back, with its bytes and its mode.
pub exchange_echoes :
    (version : Bytes) (req : Request) (msgs : List Message)
    → (w : WsWire) × (complete_all (accept_done success ∷ exchange msgs) (open_wire version req)
        ≡ some w)
      × (w.echoed ≡ msgs)
exchange_echoes version req msgs =
    let (v, ready, none_sent, step) = accepted version req in
    let (w, done, all) = exchange_all msgs v ready in
    (w, step (exchange msgs) ∙ done, all ∙ ap (λ e. e ++ msgs) none_sent)
