-- ===== src/Session/Schedules.antt =====
-- The invariant of a session of src/c++/systemicai/http/server/sessions.hpp after any schedule.
use advanced_flex_server.Common.{
  ℕ, List, [], ◌∷◌, none, some, ◌≡◌, ◌≢◌, refl, arith, Bytes, suc, Holds, Holds-map, Holds-ne-none,
}
use advanced_flex_server.Errors.{ErrorCode}
use advanced_flex_server.Handler.{Request, Response}
use advanced_flex_server.Session.{Kind, Context, do_read, on_write, on_handshake, on_shutdown}
use advanced_flex_server.Session.Wire.{
  Wire, Event, write_done, start, deliver, deliver_read, deliver_write, deliver_handshake,
  deliver_shutdown, deliver_all, note_write, Keeps, deliver_all_keeps,
}
use advanced_flex_server.Session.Invariant.{Inv, start-Inv, on_read-Inv, on_write-Inv}

abbrev pub WireInv : Wire → Type 0
WireInv w = Inv w.session w.read_over

started : (kind : Kind) (buffer : Bytes) → WireInv (start kind buffer)
unfolding start
started kind buffer = start-Inv kind buffer

-- Each completion keeps the invariant, and the assertion of the queue does not fail.
module _ (ctx : Context) where
  deliver_read-Inv :
      (n : ℕ) (ec : ErrorCode) (req : Request) (buffer : Bytes) (w : Wire)
      → w.session.reads ≡ suc n
      → WireInv w
      → Holds WireInv (deliver_read ctx (suc n) ec req buffer w)
  unfolding deliver_read
  deliver_read-Inv n ec req buffer w e v =
      on_read-Inv ctx ec req (record w.session { reads = n; buffer = buffer }) w.read_over
        (ground arith)

  deliver_write-Inv :
      (res : Response) (rest : List Response) (ec : ErrorCode) (w : Wire)
      → w.session.writes ≡ res ∷ rest
      → WireInv w
      → Holds WireInv (deliver_write ctx (res ∷ rest) ec w)
  unfolding deliver_write note_write
  deliver_write-Inv res rest ec w e v =
      Holds-map (λ ss. Inv ss w.read_over) WireInv (note_write ec res w)
        (on_write (ctx.need_eof res) ec (record w.session { writes = rest })) (λ ss h. h)
        (on_write-Inv (ctx.need_eof res) ec w.session.items res rest w.session w.read_over refl
          (ground arith))

  deliver_handshake-Inv :
      (n : ℕ) (ec : ErrorCode) (used : ℕ) (w : Wire)
      → w.session.handshakes ≡ suc n
      → WireInv w
      → Holds WireInv (deliver_handshake ctx (suc n) ec used w)
  unfolding deliver_handshake on_handshake do_read
  deliver_handshake-Inv n ec used w e v = ground arith

  deliver_shutdown-Inv :
      (n : ℕ) (ec : ErrorCode) (w : Wire)
      → w.session.shutdowns ≡ suc n
      → WireInv w
      → Holds WireInv (deliver_shutdown ctx (suc n) ec w)
  unfolding deliver_shutdown on_shutdown
  deliver_shutdown-Inv n ec w e v = ground arith

  pub deliver-Inv : Keeps ctx WireInv
  deliver-Inv = record {
    read = deliver_read-Inv;
    write = deliver_write-Inv;
    handshake = deliver_handshake-Inv;
    shutdown = deliver_shutdown-Inv;
  }

  -- After any schedule of completions a session has at most one read or handshake outstanding, and
  -- only while its queue has room; at most 8 responses are queued; the write that is outstanding is
  -- that of the front of the queue, and there is no other; while reading goes on, a read is
  -- outstanding unless the queue is full; a read has a new parser with its limit, and a timeout.
  pub deliver_all-Inv :
      (es : List Event) (kind : Kind) (buffer : Bytes) (w : Wire)
      → deliver_all ctx es (start kind buffer) ≡ some w
      → WireInv w
  deliver_all-Inv es kind buffer w h =
      deliver_all_keeps ctx WireInv deliver-Inv es (start kind buffer) w (started kind buffer) h

  write_ready :
      (writes : List Response) (ec : ErrorCode) (w : Wire)
      → w.session.writes ≡ writes
      → writes ≢ []
      → WireInv w
      → deliver_write ctx writes ec w ≢ none
  write_ready [] ec w e ne v = absurd (ne refl)
  write_ready (res ∷ rest) ec w e ne v =
      Holds-ne-none WireInv _ (deliver_write-Inv res rest ec w e v)

  -- The assertion of the queue, that it is not empty when a write completes, never fails: after any
  -- schedule each write that is outstanding can complete.
  pub deliver-ne-none :
      (es : List Event) (kind : Kind) (buffer : Bytes) (w : Wire) (ec : ErrorCode)
      → deliver_all ctx es (start kind buffer) ≡ some w
      → w.session.writes ≢ []
      → deliver ctx (write_done ec) w ≢ none
  unfolding deliver
  deliver-ne-none es kind buffer w ec h ne =
      write_ready w.session.writes ec w refl ne (deliver_all-Inv es kind buffer w h)
