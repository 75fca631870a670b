-- ===== src/Session/Drain.antt =====
-- How the queue of src/c++/systemicai/http/server/sessions.hpp runs empty.
use advanced_flex_server.Common.{
  run_all, ◌+◌, true, false, List, [], ◌∷◌, ◌++◌, map, some, ◌≡◌, ◌≢◌, refl, sym, ap, ◌∙◌, ◌⊎◌,
  arith, Bytes, All, append-nil, append_assoc, take,
}
use mathlib.Core.Option
use advanced_flex_server.Errors.{success}
use advanced_flex_server.Handler.{Response}
use advanced_flex_server.Session.{Kind, Context, is_full, do_read}
use advanced_flex_server.Session.Queue.{on_write_next, resume}
use advanced_flex_server.Session.Wire.{
  Wire, Event, write_done, start, deliver, deliver_write, deliver_all, deliver_all_keeps,
  note_write,
}
use advanced_flex_server.Session.Schedules.{WireInv, deliver-Inv, deliver_all-Inv}
use advanced_flex_server.Session.Pipelining.{respond, queue_complete}

-- One successful completion for each response.
unfoldable pub all_written : List Response → List Event
all_written [] = []
all_written (x ∷ xs) = write_done success ∷ all_written xs

module _ (ctx : Context) where
  next_wire : Response → List Response → Wire → Wire
  next_wire x xs w =
      note_write success x w
        (resume (is_full w.session) (record w.session { items = xs; writes = take 1 xs }))

  deliver-next :
      (x : Response) (xs : List Response) (w : Wire)
      → ctx.need_eof x ≡ false
      → w.session.items ≡ x ∷ xs
      → w.session.writes ≡ x ∷ []
      → deliver ctx (write_done success) w ≡ some (next_wire x xs w)
  unfolding deliver deliver_write next_wire is_full
  deliver-next x xs w keep items writes =
      rw (writes, deliver_write, keep)
        (ap (Option.map (note_write success x w))
          (on_write_next x xs success (record w.session { writes = [] }) refl items))

  next_wire_lem :
      (x : Response) (xs : List Response) (w : Wire)
      → ((next_wire x xs w).session.items ≡ xs)
        × ((next_wire x xs w).session.writes ≡ take 1 xs)
        × ((next_wire x xs w).transmitted ≡ w.transmitted ++ x ∷ [])
        × ((next_wire x xs w).requests ≡ w.requests)
        × ((next_wire x xs w).read_over ≡ w.read_over)
  unfolding next_wire note_write resume do_read
  next_wire_lem x xs w = ground arith

  -- If each write of a queued response succeeds, and none of them ends the connection, the queue runs
  -- empty and its responses go over the connection in their order.
  pub drain :
      (xs : List Response) (w : Wire)
      → w.session.items ≡ xs
      → w.session.writes ≡ take 1 xs
      → All (λ x. ctx.need_eof x ≡ false) xs
      → (w' : Wire) × (deliver_all ctx (all_written xs) w ≡ some w')
        × (w'.session.items ≡ [])
        × (w'.session.writes ≡ [])
        × (w'.transmitted ≡ w.transmitted ++ xs)
        × (w'.requests ≡ w.requests)
        × (w'.read_over ≡ w.read_over)
  unfolding all_written run_all
  drain [] w items writes keep =
      (w, refl, items, writes, sym (append-nil w.transmitted), refl, refl)
  drain (x ∷ xs) w items writes (k, keep) =
      let step = deliver-next x xs w k items writes in
      let (items', writes', sent, requests, over) = next_wire_lem x xs w in
      let (w', e, none_left, idle, all, same, over') =
        drain xs (next_wire x xs w) items' writes' keep in
      (
        w',
        rw (step, run_all) e,
        none_left,
        idle,
        all ∙ ap (λ t. t ++ xs) sent ∙ append_assoc w.transmitted (x ∷ []) xs,
        same ∙ requests,
        over' ∙ over,
      )

  -- No request goes unanswered: after any schedule, if the writing is still going on, the queued
  -- responses do not end the connection and their writes succeed, then every request that was read
  -- has its answer on the connection, in order, and the session reads on unless its reading is over.
  pub drained :
      (es : List Event) (kind : Kind) (buffer : Bytes) (w : Wire)
      → deliver_all ctx es (start kind buffer) ≡ some w
      → (w.session.writes ≢ []) ⊎ (w.session.items ≡ [])
      → All (λ x. ctx.need_eof x ≡ false) w.session.items
      → (w' : Wire) × (deliver_all ctx (all_written w.session.items) w ≡ some w')
        × (map (respond ctx) w.requests ≡ map some w'.transmitted)
        × ((w.read_over ≡ true) ⊎ (w'.session.reads + w'.session.handshakes ≡ 1))
  drained es kind buffer w h going keep =
      let v = deliver_all-Inv ctx es kind buffer w h in
      let (w', e, empty, idle, all, same, over) =
        drain w.session.items w refl (ground arith) keep in
      let v' =
        deliver_all_keeps ctx WireInv (deliver-Inv ctx) (all_written w.session.items) w w' v e in
      (w', e, queue_complete ctx es kind buffer w h going ∙ ap (map some) (sym all), ground arith)
