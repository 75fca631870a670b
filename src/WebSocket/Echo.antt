-- ===== src/WebSocket/Echo.antt =====
-- What a WebSocket session of src/c++/systemicai/http/server/sessions.hpp sends back.
use advanced_flex_server.Common.{
  run_all-keeps, ℕ, ◌+◌, ◌≤◌, true, false, List, [], ◌∷◌, ◌++◌, some, Bytes, zero, suc, ◌≡◌, refl,
  sym, ap, ◌∙◌, ◌⊎◌, inl, inr, arith, Holds, Holds-some, Bool-cases, length, append-nil,
  drop-length, eq_nil,
}
use advanced_flex_server.Errors.{ErrorCode, is_error}
use advanced_flex_server.Handler.{Request}
use advanced_flex_server.WebSocket.{
  Message, WsSession, on_accept, on_read, on_write, do_read, make_websocket_session, run, do_accept,
  new_ws_session,
}
use advanced_flex_server.WebSocket.Wire.{
  WsEvent, accept_done, message_done, echo_done, WsWire, open_wire, complete_accept, complete_read,
  complete_write, complete, complete_all,
}

pub record EchoInv (w : WsWire) : Type 0 where
  -- At most one operation is outstanding.
  pub single : length w.session.accepts + w.session.reads + length w.session.writes ≤ 1
  -- The buffer is empty when a message is read into it.
  pub clean : ((w.session.accepts ≡ []) × (w.session.reads ≡ 0)) ⊎ (w.session.buffer ≡ [])
  -- The message that is being written back is the only one that has not been; or the write of it has
  -- failed, and nothing is outstanding.
  pub echo :
      (w.received ≡ w.echoed ++ w.session.writes)
      ⊎ ((msg : Message) × (w.received ≡ w.echoed ++ msg ∷ [])
          × (length w.session.accepts + w.session.reads + length w.session.writes ≡ 0))

accept-EchoInv :
    (accepts : List Request) (ec : ErrorCode) (w w' : WsWire)
    → w.session.accepts ≡ accepts
    → EchoInv w
    → complete_accept accepts ec w ≡ some w'
    → EchoInv w'
unfolding complete_accept on_accept do_read
accept-EchoInv [] ec w w' e v h = cc
accept-EchoInv (req ∷ rest) ec w w' e v h = ground arith

-- While a read is outstanding nothing waits to be written back.
reading :
    (n : ℕ) (w : WsWire)
    → w.session.reads ≡ suc n
    → EchoInv w
    → (n ≡ 0)
      × (w.session.accepts ≡ [])
      × (w.session.writes ≡ [])
      × (w.session.buffer ≡ [])
      × (w.received ≡ w.echoed)
reading n w e v =
    let quiet = eq_nil w.session.writes (omega (arith, v.single)) in
    (
      omega (arith, v.single),
      eq_nil w.session.accepts (omega (arith, v.single)),
      quiet,
      ground arith,
      ground (arith, quiet, append-nil w.echoed),
    )

on_read_bad :
    (ec : ErrorCode) (ws : WsSession)
    → is_error ec ≡ true
    → ((on_read ec ws).accepts ≡ ws.accepts)
      × ((on_read ec ws).reads ≡ ws.reads)
      × ((on_read ec ws).writes ≡ ws.writes)
unfolding on_read
on_read_bad ec ws h = ground arith

on_read_ok :
    (ec : ErrorCode) (ws : WsSession)
    → is_error ec ≡ false
    → on_read ec ws ≡ record ws {
      text = ws.got_text;
      writes = ws.writes ++ record { payload = ws.buffer; is_text = ws.got_text } ∷ [];
    }
unfolding on_read
on_read_ok ec ws h = ground arith

-- The session as the stream leaves it when a message has been read.
abbrev filled : ℕ → Message → WsSession → WsSession
filled n msg ws = record ws { reads = n; buffer = ws.buffer ++ msg.payload; got_text = msg.is_text }

read-EchoInv :
    (n : ℕ) (ec : ErrorCode) (msg : Message) (w : WsWire)
    → w.session.reads ≡ suc n
    → EchoInv w
    → Holds EchoInv (complete_read (suc n) ec msg w)
unfolding complete_read
read-EchoInv n ec msg w e v =
    let (last, accepts, writes, buffer, received) = reading n w e v in
    let ss = filled n msg w.session in
    elim (Bool-cases (is_error ec)) [
      | inl bad ↦
          let (a, r, q) = on_read_bad ec ss bad in
          let none_out : (on_read ec ss).writes ≡ [] = q ∙ writes in
          rw bad (record {
            single = rw (a, r, q, accepts, last, writes) (omega arith);
            clean = inl (a ∙ accepts, r ∙ last);
            echo = inl (rw (none_out, append-nil w.echoed) received);
          })
      | inr ok ↦
          rw (ok, on_read_ok ec ss ok, writes, buffer)
            (record {
              single = rw (accepts, last) (omega arith);
              clean = inl (accepts, last);
              echo = inl (ap (λ r. r ++ msg ∷ []) received);
            })
    ]

written :
    (echoed rest : List Message) {msg : Message} (w : WsWire)
    → w.session.writes ≡ msg ∷ rest
    → rest ≡ []
    → EchoInv w
    → w.received ≡ w.echoed ++ msg ∷ []
written echoed rest w e last v = elim v.echo [
  | inl same ↦ rw (e, last) at same
  | inr (lost, _, idle) ↦ absurd (omega (arith, ap length e, idle))
]

-- While a write is outstanding nothing else is.
writing :
    (msg : Message) (rest : List Message) (w : WsWire)
    → w.session.writes ≡ msg ∷ rest
    → EchoInv w
    → (rest ≡ [])
      × (w.session.accepts ≡ [])
      × (w.session.reads ≡ 0)
      × (w.received ≡ w.echoed ++ msg ∷ [])
writing msg rest w e v =
    let total = ap length e in
    let last = eq_nil rest (omega (arith, v.single, total)) in
    (
      last,
      eq_nil w.session.accepts (omega (arith, v.single, total)),
      omega (arith, v.single, total),
      written w.echoed rest w e last v,
    )

write-EchoInv :
    (msg : Message) (rest : List Message) (ec : ErrorCode) (w : WsWire)
    → w.session.writes ≡ msg ∷ rest
    → EchoInv w
    → Holds EchoInv (complete_write (msg ∷ rest) ec w)
unfolding complete_write on_write do_read
write-EchoInv msg rest ec w e v =
    let (last, accepts, reads, received) = writing msg rest w e v in
    elim (Bool-cases (is_error ec)) [
      | inl bad ↦ rw bad (record {
        single = rw (accepts, reads, last) (omega arith);
        clean = inl (accepts, reads);
        echo = inr (msg, received, rw (accepts, reads, last) (omega arith));
      })
      | inr ok ↦
          rw (ok, reads, last)
            (record {
              single = rw accepts (omega arith);
              clean = inr (drop-length w.session.buffer);
              echo = inl (received ∙ sym (append-nil (w.echoed ++ msg ∷ [])));
            })
    ]

read_completed :
    (n : ℕ) (ec : ErrorCode) (msg : Message) (w w' : WsWire)
    → w.session.reads ≡ n
    → EchoInv w
    → complete_read n ec msg w ≡ some w'
    → EchoInv w'
unfolding complete_read
read_completed zero ec msg w w' e v h = cc
read_completed (suc n) ec msg w w' e v h = Holds-some EchoInv _ w' (read-EchoInv n ec msg w e v) h

write_completed :
    (writes : List Message) (ec : ErrorCode) (w w' : WsWire)
    → w.session.writes ≡ writes
    → EchoInv w
    → complete_write writes ec w ≡ some w'
    → EchoInv w'
unfolding complete_write
write_completed [] ec w w' e v h = cc
write_completed (msg ∷ rest) ec w w' e v h =
    Holds-some EchoInv _ w' (write-EchoInv msg rest ec w e v) h

-- Each completion keeps the invariant.
completed : (e : WsEvent) (w w' : WsWire) → EchoInv w → complete e w ≡ some w' → EchoInv w'
unfolding complete
completed (accept_done ec) w w' v h = accept-EchoInv w.session.accepts ec w w' refl v h
completed (message_done ec msg) w w' v h = read_completed w.session.reads ec msg w w' refl v h
completed (echo_done ec) w w' v h = write_completed w.session.writes ec w w' refl v h

opened : (version : Bytes) (req : Request) → EchoInv (open_wire version req)
unfolding open_wire make_websocket_session run do_accept new_ws_session
opened version req = record { single = omega arith; clean = inr refl; echo = inl refl }

completed_all :
    (es : List WsEvent) (w w' : WsWire) → EchoInv w → complete_all es w ≡ some w' → EchoInv w'
completed_all es w w' v h = run_all-keeps complete EchoInv completed es w w' v h

-- After any schedule of completions a WebSocket session has at most one operation outstanding, and
-- no read is outstanding or the buffer is empty.
pub complete_all-single :
    (es : List WsEvent) (version : Bytes) (req : Request) (w : WsWire)
    → complete_all es (open_wire version req) ≡ some w
    → (length w.session.accepts + w.session.reads + length w.session.writes ≤ 1)
      × ((w.session.reads ≡ 0) ⊎ (w.session.buffer ≡ []))
complete_all-single es version req w h =
    let v = completed_all es (open_wire version req) w (opened version req) h in
    (v.single, elim v.clean [ inl (_, none_read) ↦ inl none_read | inr e ↦ inr e ])

-- After any schedule of completions the messages that have been written back are the messages that
-- were received, in their order and each with its bytes and its mode, but for at most one, the last.
-- That one is still being written, or its write has failed and nothing is outstanding.
pub echoed_in_order :
    (es : List WsEvent) (version : Bytes) (req : Request) (w : WsWire)
    → complete_all es (open_wire version req) ≡ some w
    → (rest : List Message) × (w.received ≡ w.echoed ++ rest)
      × (length rest ≤ 1)
      × ((rest ≡ w.session.writes)
          ⊎ (length w.session.accepts + w.session.reads + length w.session.writes ≡ 0))
echoed_in_order es version req w h =
    let v = completed_all es (open_wire version req) w (opened version req) h in
    elim v.echo [
      | inl same ↦ (w.session.writes, same, omega (arith, v.single), inl refl)
      | inr (msg, same, idle) ↦ (msg ∷ [], same, omega arith, inr idle)
    ]
