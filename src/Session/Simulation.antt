-- ===== src/Session/Simulation.antt =====
-- A session of src/c++/systemicai/http/server/sessions.hpp does what Session/Specification promises.
use advanced_flex_server.Common.{
  ℕ, suc, ◌≤◌, Bool, true, false, ◌||◌, List, [], ◌∷◌, ◌++◌, some, ◌≡◌, ◌≢◌, ◌⊎◌, refl, arith,
  Bytes, length, length-append, take, not, ap,
}
use advanced_flex_server.Errors.{ErrorCode, is_error}
use advanced_flex_server.Handler.{Request, Response}
use advanced_flex_server.Session.{Context, queue_send, is_full}
use advanced_flex_server.Session.Queue.{
  send_items, resume, write_ended, on_write_end, on_write_next, queue_send_at, on_read-answer,
}
use advanced_flex_server.Session.Wire.{Wire, deliver_read, deliver_write, note_write}
use advanced_flex_server.Session.Pipelining.{
  respond, read_on_keeps, on_read_over, resume_keeps, write_ended_keeps,
}
use advanced_flex_server.Session.Specification.{
  with_answer, closed_off, without_first, broken_off, Pipeline,
}

-- The queue of a session whose writes go on is what is pending, and its front is being written; when
-- writing has ended, the queue keeps at least what is pending.
abbrev pub Queues : List Response → List Response → Pipeline → Type 0
Queues items writes p =
    ((p.writing ≡ true) × (p.pending ≡ items) × (writes ≡ take 1 items))
    ⊎ ((p.writing ≡ false) × (writes ≡ []) × (items ≢ []) × (length p.pending ≤ length items))

-- The pipeline is what this session shows.
abbrev pub Shows : Wire → Pipeline → Type 0
Shows w p =
    (p.accepted ≡ w.requests)
    × (p.delivered ≡ w.transmitted)
    × (p.accepting ≡ not w.read_over)
    × Queues w.session.items w.session.writes p

Queues-send :
    (items writes : List Response) (res : Response) (p : Pipeline) (req : Request)
    → Queues items writes p
    → Queues (items ++ res ∷ []) (send_items res items writes) (with_answer req res p)
unfolding send_items
Queues-send [] writes res p req q = ground arith
Queues-send (x ∷ xs) writes res p req q =
    ground (arith, length-append p.pending (res ∷ []), length-append xs (res ∷ []))

module _ (ctx : Context) where
  -- A request that is read and answered.
  pub accept-Shows :
      (n : ℕ) (ec : ErrorCode) (req : Request) (buffer : Bytes) (w : Wire) (p : Pipeline)
      → Shows w p
      → is_error ec || req.is_upgrade ≡ false
      → (res : Response) × (respond ctx req ≡ some res)
        × (w' : Wire) × (deliver_read ctx (suc n) ec req buffer w ≡ some w')
        × Shows w' (with_answer req res p)
  unfolding deliver_read
  accept-Shows n ec req buffer w p s go =
      let ss = record w.session { reads = n; buffer = buffer } in
      let (res, sent, next) = on_read-answer ctx ec req ss (ground arith) (ground arith) in
      let (items, writes) = read_on_keeps (queue_send res ss) in
      (
        res,
        sent,
        _,
        refl,
        ground (
          arith,
          queue_send_at res ss.items ss refl,
          Queues-send ss.items ss.writes res p req s.3,
        ),
      )

  -- A read that ends the reading.
  pub stop-Shows :
      (n : ℕ) (ec : ErrorCode) (req : Request) (buffer : Bytes) (w : Wire) (p : Pipeline)
      → Shows w p
      → is_error ec || req.is_upgrade ≡ true
      → (w' : Wire) × (deliver_read ctx (suc n) ec req buffer w ≡ some w') × Shows w' (closed_off p)
  unfolding deliver_read
  stop-Shows n ec req buffer w p s over =
      let ss = record w.session { reads = n; buffer = buffer } in
      let (items, writes) = on_read_over ctx ec req ss over in (_, refl, ground arith)

  -- A write that fails, one that ends the connection, and one after which the next starts.
  pub break-Shows :
      (ec : ErrorCode) (res : Response) (xs : List Response) (w : Wire) (p : Pipeline)
      → Shows w p
      → is_error ec ≡ true
      → p.pending ≡ res ∷ xs
      → w.session.items ≡ res ∷ xs
      → Shows
          (note_write ec res w (write_ended ec (record w.session { writes = [] })))
          (broken_off p)
  unfolding note_write
  break-Shows ec res xs w p s bad first items =
      let (same_items, same_writes) = write_ended_keeps ec (record w.session { writes = [] }) in
      ground (arith, ap length first)

  pub last-Shows :
      (ec : ErrorCode) (res : Response) (xs : List Response) (w : Wire) (p : Pipeline)
      → Shows w p
      → is_error ec ≡ false
      → p.pending ≡ res ∷ xs
      → w.session.items ≡ res ∷ xs
      → Shows
          (note_write ec res w (write_ended ec (record w.session { writes = [] })))
          (broken_off (without_first res xs p))
  unfolding note_write
  last-Shows ec res xs w p s ok first items =
      let (same_items, same_writes) = write_ended_keeps ec (record w.session { writes = [] }) in
      ground arith

  pub next-Shows :
      (ec : ErrorCode) (full : Bool) (res : Response) (xs : List Response) (w : Wire) (p : Pipeline)
      → Shows w p
      → is_error ec ≡ false
      → p.writing ≡ true
      → p.pending ≡ res ∷ xs
      → Shows
          (note_write ec res w (resume full (record w.session { items = xs; writes = take 1 xs })))
          (without_first res xs p)
  unfolding note_write
  next-Shows ec full res xs w p s ok on first =
      let (same_items, same_writes) =
        resume_keeps full (record w.session { items = xs; writes = take 1 xs }) in
      ground arith

  -- What the completion of the write of the front does.
  pub write_over :
      (ec : ErrorCode) (res : Response) (w : Wire)
      → is_error ec || ctx.need_eof res ≡ true
      → deliver_write ctx (res ∷ []) ec w
        ≡ some (note_write ec res w (write_ended ec (record w.session { writes = [] })))
  unfolding deliver_write
  write_over ec res w over =
      rw (on_write_end (ctx.need_eof res) ec (record w.session { writes = [] }) over) refl

  pub write_next :
      (ec : ErrorCode) (res : Response) (xs : List Response) (w : Wire)
      → is_error ec ≡ false
      → ctx.need_eof res ≡ false
      → w.session.items ≡ res ∷ xs
      → deliver_write ctx (res ∷ []) ec w
        ≡ some (
            note_write ec res w
              (resume (is_full w.session) (record w.session { items = xs; writes = take 1 xs })))
  unfolding deliver_write is_full
  write_next ec res xs w ok goes_on front =
      rw (goes_on, on_write_next res xs ec (record w.session { writes = [] }) ok front) refl
