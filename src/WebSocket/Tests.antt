-- ===== src/WebSocket/Tests.antt =====
-- Runs of a WebSocket session, and the witnesses.
use advanced_flex_server.Common.{
  run_all, List, [], ◌∷◌, some, ◌≡◌, refl, Bytes, codes, true, false, ◌++◌, length, ◌≤◌, ◌+◌, ◌⊎◌,
}
use advanced_flex_server.Errors.{success}
use advanced_flex_server.Handler.{Request, get}
use advanced_flex_server.WebSocket.{
  Message, make_websocket_session, on_accept, on_read, on_write, do_read, do_accept, run,
  new_ws_session,
}
use advanced_flex_server.WebSocket.Wire.{
  WsEvent, accept_done, message_done, echo_done, WsWire, open_wire, complete_accept, complete_read,
  complete_write, complete, complete_all,
}
use advanced_flex_server.WebSocket.Echo.{echoed_in_order}
use advanced_flex_server.WebSocket.Exchange.{exchange, exchange_echoes}
use advanced_flex_server.Handler.Sample.{ask}

abbrev greeting : Message
greeting = record { payload = codes "hello"; is_text = true }

abbrev blob : Message
blob = record { payload = 0 ∷ 255 ∷ []; is_text = false }

abbrev version : Bytes
version = codes "Beast"

abbrev chat : Request
chat = ask get (codes "/chat")

-- The greeting has come back, the blob is being written.
abbrev talk : List WsEvent
talk =
    accept_done success
    ∷ message_done success greeting
    ∷ echo_done success
    ∷ message_done success blob
    ∷ []

after_talk : WsWire
after_talk = record {
  session = record {
    buffer = 0 ∷ 255 ∷ [];
    suggested_timeout = true;
    server_field = some (version ++ codes " advanced-server-flex");
    text = false;
    got_text = false;
    accepts = [];
    reads = 0;
    writes = blob ∷ [];
    log = [];
  };
  received = greeting ∷ blob ∷ [];
  echoed = greeting ∷ [];
}

talk_lem : complete_all talk (open_wire version chat) ≡ some after_talk
unfolding after_talk run_all complete complete_accept complete_read complete_write on_accept on_read
    on_write do_read open_wire make_websocket_session run do_accept new_ws_session
talk_lem = refl

echoed_in_order_example :
    (rest : List Message) × (after_talk.received ≡ after_talk.echoed ++ rest)
    × (length rest ≤ 1)
    × ((rest ≡ after_talk.session.writes)
        ⊎ (length after_talk.session.accepts
              + after_talk.session.reads
              + length after_talk.session.writes
            ≡ 0))
echoed_in_order_example = echoed_in_order talk version chat after_talk talk_lem

exchange_echoes_example :
    (w : WsWire) × (complete_all
        (accept_done success ∷ exchange (greeting ∷ blob ∷ []))
        (open_wire version chat)
      ≡ some w)
    × (w.echoed ≡ greeting ∷ blob ∷ [])
exchange_echoes_example = exchange_echoes version chat (greeting ∷ blob ∷ [])
