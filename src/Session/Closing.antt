-- ===== src/Session/Closing.antt =====
-- The end of the stream in `on_read` of src/c++/systemicai/http/server/sessions.hpp.
use advanced_flex_server.Common.{
  ℕ, zero, suc, ◌<◌, Bool, ◌||◌, List, [], ◌∷◌, ◌++◌, some, ◌≡◌, ◌≢◌, ◌∙◌, ap, inl, inr, refl,
  arith, Bytes, length, length-append, length-map, Bool-cases, Option-cases, run_all-keeps,
}
use advanced_flex_server.Errors.{ErrorCode, end_of_stream, is_error}
use advanced_flex_server.Handler.{Request, Response}
use advanced_flex_server.Session.{
  Session, plain, Context, send_shutdown, ssl_do_eof, queue_on_write, start_front, start_write,
  on_read, on_write, do_eof, plain_do_eof, do_read, upgrade, on_handshake, on_shutdown,
}
use advanced_flex_server.Session.Queue.{queue_send_at, read_on, on_read-answer}
use advanced_flex_server.Session.Wire.{
  Wire, Event, read_done, write_done, handshake_done, shutdown_done, start, deliver, deliver_read,
  deliver_write, deliver_handshake, deliver_shutdown, deliver_all, note_write,
}
use advanced_flex_server.Session.Schedules.{deliver_all-Inv}
use advanced_flex_server.Session.Pipelining.{respond, queue_complete}

read_on-kind : (ss : Session) → (read_on ss).kind ≡ ss.kind
unfolding read_on do_read
read_on-kind ss = ground arith

module _ (ctx : Context) where
  on_read-kind :
      (ec : ErrorCode) (req : Request) (ss : Session) → (on_read ctx ec req ss).kind ≡ ss.kind
  unfolding on_read do_eof upgrade
  on_read-kind ec req ss = elim (Bool-cases (is_error ec || req.is_upgrade)) [
    | inl over ↦ ground arith
    | inr go ↦
        let (res, _, next) = on_read-answer ctx ec req ss (ground arith) (ground arith) in
        rw (next, read_on-kind, queue_send_at res ss.items ss refl) refl
  ]

  on_write-kind :
      (close : Bool) (ec : ErrorCode) (ss t : Session)
      → on_write close ec ss ≡ some t
      → t.kind ≡ ss.kind
  unfolding on_write queue_on_write start_front start_write do_eof plain_do_eof ssl_do_eof do_read
  on_write-kind close ec ss t h = ground arith

  read-kind :
      (n : ℕ) (ec : ErrorCode) (req : Request) (buffer : Bytes) (w w' : Wire)
      → deliver_read ctx n ec req buffer w ≡ some w'
      → w'.session.kind ≡ w.session.kind
  unfolding deliver_read
  read-kind zero ec req buffer w w' h = cc
  read-kind (suc n) ec req buffer w w' h =
      ground (arith, on_read-kind ec req (record w.session { reads = n; buffer = buffer }))

  write-kind :
      (writes : List Response) (ec : ErrorCode) (w w' : Wire)
      → deliver_write ctx writes ec w ≡ some w'
      → w'.session.kind ≡ w.session.kind
  unfolding deliver_write note_write
  write-kind [] ec w w' h = cc
  write-kind (res ∷ rest) ec w w' h =
      let ss = record w.session { writes = rest } in
      elim (Option-cases (on_write (ctx.need_eof res) ec ss)) [
        | inl missing ↦ ground (arith, missing)
        | inr (t, found) ↦ ground (arith, found, on_write-kind (ctx.need_eof res) ec ss t found)
      ]

  -- No completion changes the class of a session.
  deliver-kind :
      (e : Event) (w w' : Wire) → deliver ctx e w ≡ some w' → w'.session.kind ≡ w.session.kind
  unfolding deliver deliver_handshake deliver_shutdown on_handshake do_read on_shutdown
  deliver-kind (read_done ec req buffer) w w' h = read-kind w.session.reads ec req buffer w w' h
  deliver-kind (write_done ec) w w' h = write-kind w.session.writes ec w w' h
  deliver-kind (handshake_done ec used) w w' h = ground arith
  deliver-kind (shutdown_done ec) w w' h = ground arith

  started_plain : (buffer : Bytes) → (start plain buffer).session.kind ≡ plain
  unfolding start
  started_plain buffer = refl

  stays_plain :
      (es : List Event) (buffer : Bytes) (w : Wire)
      → deliver_all ctx es (start plain buffer) ≡ some w
      → w.session.kind ≡ plain
  stays_plain es buffer w h =
      run_all-keeps (deliver ctx) (λ v. v.session.kind ≡ plain)
        (λ e v v' same k. deliver-kind e v v' k ∙ same) es (start plain buffer) w
        (started_plain buffer) h

module _ (ctx : Context) (req : Request) (buffer : Bytes) (w w' : Wire) where
  end-at :
      (n : ℕ)
      → w.session.reads ≡ n
      → w.session.kind ≡ plain
      → deliver_read ctx n end_of_stream req buffer w ≡ some w'
      → (w'.session.stream ≡ send_shutdown)
        × (w'.session.writes ≡ w.session.writes)
        × (w'.session.items ≡ w.session.items)
        × (w'.requests ≡ w.requests)
        × (w'.transmitted ≡ w.transmitted)
  unfolding deliver_read on_read do_eof plain_do_eof
  end-at zero e k h = cc
  end-at (suc n) e k h = ground arith

module _ (ctx : Context) (es : List Event) (buffer buffer' : Bytes) (w w' : Wire) (req : Request)
    (before : deliver_all ctx es (start plain buffer) ≡ some w)
    (after : deliver ctx (read_done end_of_stream req buffer') w ≡ some w') where
  ended :
      (w'.session.stream ≡ send_shutdown)
      × (w'.session.writes ≡ w.session.writes)
      × (w'.session.items ≡ w.session.items)
      × (w'.requests ≡ w.requests)
      × (w'.transmitted ≡ w.transmitted)
  unfolding deliver
  ended =
      end-at ctx req buffer' w w' w.session.reads refl (stays_plain ctx es buffer w before) after

  -- While a response is being written, its request has no answer on the connection yet.
  unanswered : w.session.writes ≢ [] → length w.transmitted < length w.requests
  unanswered writing =
      let answers = queue_complete ctx es plain buffer w before (inl writing) in
      let sizes = ap length answers in
      let v = deliver_all-Inv ctx es plain buffer w before in
      ground (
        arith,
        length-map (respond ctx) w.requests,
        length-map some (w.transmitted ++ w.session.items),
        length-append w.transmitted w.session.items,
        sizes,
        v.driven,
      )

  -- A plain session whose client has ended its stream is shut down for sending at once, also while it
  -- is writing: where a response is being written, this write is still outstanding afterwards, and
  -- fewer responses have gone over the connection than requests have been read.
  pub eof_while_writing :
      w.session.writes ≢ []
      → (w'.session.stream ≡ send_shutdown)
        × (w'.session.writes ≡ w.session.writes)
        × (w'.session.writes ≢ [])
        × (length w'.transmitted < length w'.requests)
  eof_while_writing writing = ground (arith, ended, unanswered writing)
