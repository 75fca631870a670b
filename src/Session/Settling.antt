-- ===== src/Session/Settling.antt =====
-- What holds of a session of src/c++/systemicai/http/server/sessions.hpp when its reading is over.
use advanced_flex_server.Common.{
  ℕ, zero, suc, ◌+◌, ◌≤◌, ◌<◌, Bool, true, false, ◌||◌, List, [], ◌∷◌, ◌++◌, some, ◌≡◌, ◌⊎◌, inl,
  inr, refl, arith, Bytes, length, take, Bool-cases, run_all-keeps, run_all, subst, some-injective,
  if◌then◌else◌,
}
use advanced_flex_server.Errors.{ErrorCode, is_error}
use advanced_flex_server.Handler.{Request, Response}
use advanced_flex_server.Session.{
  Session, Kind, plain, ssl, Context, queue_send, is_full, on_read, do_eof, plain_do_eof,
  ssl_do_eof, do_read, upgrade, on_handshake, on_shutdown, limit,
}
use advanced_flex_server.Session.Queue.{
  IsDriven, send_items, resume, write_ended, on_write_end, on_write_next, queue_send_at, read_on,
  on_read-answer,
}
use advanced_flex_server.Session.Wire.{
  Wire, Event, read_done, write_done, handshake_done, shutdown_done, start, deliver, deliver_read,
  deliver_write, deliver_handshake, deliver_shutdown, deliver_all, note_write, keeps_deliver,
}
use advanced_flex_server.Session.Invariant.{Inv}
use advanced_flex_server.Session.Schedules.{WireInv, deliver-Inv, deliver_all-Inv}

-- Whether the writing has been halted, by an error or by a response that closes the connection.
abbrev pub halted : List Response → List Response → ℕ
halted [] writes = 0
halted (x ∷ xs) [] = 1
halted (x ∷ xs) (y ∷ ys) = 0

abbrev pub ended : Bool → ℕ
ended over = if over then 1 else 0

-- When its reading is over a session starts no read; and it has started no more shutdowns than there
-- were reasons to close the connection.
pub record Settled (ss : Session) (over : Bool) : Type 0 where
  pub quiet : (over ≡ false) ⊎ ((ss.reads + ss.handshakes ≡ 0) × (length ss.items < limit))
  pub stops : ss.shutdowns ≤ ended over + halted ss.items ss.writes

-- The completions that may still come when the reading is over: one for each response that is queued,
-- while they are being written, and for the shutdowns, of which a response may start one more.
abbrev pub to_come : List Response → List Response → ℕ
to_come items [] = 0
to_come items (x ∷ xs) = length items + 1

abbrev pub left : Wire → ℕ
left w = to_come w.session.items w.session.writes + w.session.shutdowns

-- What a completion leads to.
abbrev pub Settles : Wire → Wire → Type 0
Settles w w' =
    Settled w'.session w'.read_over
    × ((w.read_over ≡ false) ⊎ ((w'.read_over ≡ true) × (left w' + 1 ≤ left w)))

halted-send :
    (res : Response) (items writes : List Response)
    → IsDriven items writes
    → halted items writes ≤ halted (items ++ res ∷ []) (send_items res items writes)
unfolding send_items
halted-send res [] writes d = ground arith
halted-send res (x ∷ xs) [] d = ground arith
halted-send res (x ∷ xs) (y ∷ ys) d = ground arith

module _ (ctx : Context) where
  over-Settled :
      (ec : ErrorCode) (req : Request) (ss : Session)
      → Inv (record ss { reads = suc ss.reads }) false
      → Settled ss false
      → is_error ec || req.is_upgrade ≡ true
      → Settled (on_read ctx ec req ss) true
  unfolding on_read do_eof plain_do_eof ssl_do_eof upgrade
  over-Settled ec req ss v t over = ground arith

  answer-Settled :
      (res : Response) (ss : Session)
      → IsDriven ss.items ss.writes
      → Settled ss false
      → Settled (read_on (queue_send res ss)) false
  unfolding read_on do_read
  answer-Settled res ss d t =
      rw (queue_send_at res ss.items ss refl) (ground (arith, halted-send res ss.items ss.writes d))

  read-Settles :
      (n : ℕ) (ec : ErrorCode) (req : Request) (buffer : Bytes) (w w' : Wire)
      → w.session.reads ≡ n
      → WireInv w
      → Settled w.session w.read_over
      → deliver_read ctx n ec req buffer w ≡ some w'
      → Settles w w'
  unfolding deliver_read
  read-Settles zero ec req buffer w w' e v t h = cc
  read-Settles (suc n) ec req buffer w w' e v t h =
      let ss = record w.session { reads = n; buffer = buffer } in
      let going : w.read_over ≡ false = ground arith in
      elim (Bool-cases (is_error ec || req.is_upgrade)) [
        | inl over ↦
            let settled = over-Settled ec req ss (ground arith) (ground arith) over in ground arith
        | inr go ↦
            let (res, _, next) = on_read-answer ctx ec req ss (ground arith) (ground arith) in
            let settled = answer-Settled res ss v.driven (ground arith) in ground arith
      ]

  ended-Settles :
      (ec : ErrorCode) (res : Response) (rest : List Response) (w : Wire)
      → WireInv w
      → Settled w.session w.read_over
      → w.session.writes ≡ res ∷ rest
      → Settles w (note_write ec res w (write_ended ec (record w.session { writes = rest })))
  unfolding note_write write_ended do_eof plain_do_eof ssl_do_eof
  ended-Settles ec res rest w v t e = ground arith

  next-Settles :
      (ec : ErrorCode) (res : Response) (xs : List Response) (w : Wire)
      → WireInv w
      → Settled w.session w.read_over
      → w.session.items ≡ res ∷ xs
      → w.session.writes ≡ res ∷ []
      → Settles w (
          note_write ec res w
            (resume (is_full w.session) (record w.session { items = xs; writes = take 1 xs })))
  unfolding note_write resume is_full do_read
  next-Settles ec res [] w v t items writes = ground arith
  next-Settles ec res (x ∷ xs) w v t items writes = ground arith

  write-Settles :
      (items writes : List Response) (ec : ErrorCode) (w w' : Wire)
      → w.session.items ≡ items
      → w.session.writes ≡ writes
      → WireInv w
      → Settled w.session w.read_over
      → deliver_write ctx writes ec w ≡ some w'
      → Settles w w'
  unfolding deliver_write
  write-Settles items [] ec w w' i e v t h = cc
  write-Settles [] (res ∷ rest) ec w w' i e v t h = ground arith
  write-Settles (x ∷ xs) (res ∷ rest) ec w w' i e v t h =
      let ss = record w.session { writes = rest } in
      let close = ctx.need_eof res in
      elim (Bool-cases (is_error ec || close)) [
        | inl over ↦
            let same : some _ ≡ some w' = rw (on_write_end close ec ss over) at h in
            subst (Settles w) (some-injective _ _ same) (ended-Settles ec res rest w v t e)
        | inr go ↦
            let front : w.session.items ≡ res ∷ xs = ground arith in
            let alone : w.session.writes ≡ res ∷ [] = ground arith in
            let last : rest ≡ [] = ground arith in
            let open_ : close ≡ false = ground arith in
            let same : some _ ≡ some w' =
              rw (open_, on_write_next res xs ec ss (ground arith) front, last) at h in
            subst (Settles w) (some-injective _ _ same) (next-Settles ec res xs w v t front alone)
      ]

  pub deliver-Settles :
      (e : Event) (w w' : Wire)
      → WireInv w
      → Settled w.session w.read_over
      → deliver ctx e w ≡ some w'
      → Settles w w'
  unfolding deliver deliver_handshake deliver_shutdown on_handshake do_read on_shutdown
  deliver-Settles (read_done ec req buffer) w w' v t h =
      read-Settles w.session.reads ec req buffer w w' refl v t h
  deliver-Settles (write_done ec) w w' v t h =
      write-Settles w.session.items w.session.writes ec w w' refl refl v t h
  deliver-Settles (handshake_done ec used) w w' v t h = ground arith
  deliver-Settles (shutdown_done ec) w w' v t h = ground arith

  abbrev pub Resting : Wire → Type 0
  Resting w = WireInv w × Settled w.session w.read_over

  pub deliver-Resting :
      (e : Event) (w w' : Wire) → Resting w → deliver ctx e w ≡ some w' → Resting w'
  deliver-Resting e w w' (v, t) h =
      (keeps_deliver ctx WireInv (deliver-Inv ctx) e w w' v h, (deliver-Settles e w w' v t h).0)

  pub start-Resting : (kind : Kind) (buffer : Bytes) → Resting (start kind buffer)
  unfolding start run_all
  start-Resting plain buffer = (deliver_all-Inv ctx [] plain buffer _ refl, ground arith)
  start-Resting ssl buffer = (deliver_all-Inv ctx [] ssl buffer _ refl, ground arith)

  pub deliver_all-Resting :
      (es : List Event) (kind : Kind) (buffer : Bytes) (w : Wire)
      → deliver_all ctx es (start kind buffer) ≡ some w
      → Resting w
  deliver_all-Resting es kind buffer w h =
      run_all-keeps (deliver ctx) Resting deliver-Resting es (start kind buffer) w
        (start-Resting kind buffer) h
