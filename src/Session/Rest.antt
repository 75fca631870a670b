-- ===== src/Session/Rest.antt =====
-- How a session of src/c++/systemicai/http/server/sessions.hpp comes to rest.
use advanced_flex_server.Common.{
  ◌+◌, ◌≤◌, true, List, [], ◌∷◌, some, ◌≡◌, refl, arith, Bytes, length, run_all-length,
  run_all-keeps,
}
use advanced_flex_server.Handler.{Response}
use advanced_flex_server.Session.{Kind, Context}
use advanced_flex_server.Session.Wire.{Wire, Event, start, deliver, deliver_all}
use advanced_flex_server.Session.Settling.{
  Resting, left, deliver-Settles, deliver-Resting, deliver_all-Resting,
}

module _ (ctx : Context) where
  abbrev Over : Wire → Type 0
  Over w = Resting ctx w × (w.read_over ≡ true)

  deliver-Over :
      (e : Event) (w w' : Wire)
      → Over w
      → deliver ctx e w ≡ some w'
      → Over w' × (left w' + 1 ≤ left w)
  deliver-Over e w w' ((v, t), over) h =
      let resting = deliver-Resting ctx e w w' (v, t) h in
      let settles = deliver-Settles ctx e w w' v t h in ground arith

  few :
      (more : List Event) (w w' : Wire) (items writes : List Response)
      → w.session.items ≡ items
      → w.session.writes ≡ writes
      → Over w
      → length more + left w' ≤ left w
      → length more ≤ 9
  few more w w' [] [] i e o bound = ground arith
  few more w w' [] (y ∷ ys) i e o bound = ground arith
  few more w w' (x ∷ xs) [] i e o bound = ground arith
  few more w w' (x ∷ xs) (y ∷ ys) i e o bound = ground arith

  Over-few :
      (more : List Event) (w w' : Wire) → Over w → length more + left w' ≤ left w → length more ≤ 9
  Over-few more w w' o bound = few more w w' w.session.items w.session.writes refl refl o bound

  Over-quiet : (w : Wire) → Over w → w.session.reads + w.session.handshakes ≡ 0
  Over-quiet w ((v, t), over) = ground arith

  -- A session comes to rest: once its reading is over, by an error, the end of the stream or an
  -- upgrade, it starts no read again, and at most nine more of its operations complete, whatever
  -- they report.
  pub session_ends :
      (es more : List Event) (kind : Kind) (buffer : Bytes) (w w' : Wire)
      → deliver_all ctx es (start kind buffer) ≡ some w
      → w.read_over ≡ true
      → deliver_all ctx more w ≡ some w'
      → (length more ≤ 9) × (w'.session.reads + w'.session.handshakes ≡ 0)
  session_ends es more kind buffer w w' h over more_h =
      let rests = deliver_all-Resting ctx es kind buffer w h in
      let (rests', over') =
        run_all-keeps (deliver ctx) Over (λ e u u' o k. (deliver-Over e u u' o k).0) more w w'
          (rests, over) more_h in
      let bound =
        run_all-length (deliver ctx) Over left deliver-Over more w w' (rests, over) more_h in
      (Over-few more w w' (rests, over) bound, Over-quiet w' (rests', over'))
