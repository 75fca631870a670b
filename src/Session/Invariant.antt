-- ===== src/Session/Invariant.antt =====
-- What holds of a session of src/c++/systemicai/http/server/sessions.hpp at all times.
use advanced_flex_server.Common.{
  ◌+◌, ◌≤◌, ◌<◌, Bool, true, false, ◌||◌, List, [], ◌∷◌, ◌++◌, some, ◌≡◌, refl, ◌⊎◌, inl, inr,
  arith, length, length-append, take, if◌then◌else◌, Bytes, suc, Bool-cases, Holds,
}
use advanced_flex_server.Errors.{ErrorCode, is_error}
use advanced_flex_server.Handler.{Request, Response}
use advanced_flex_server.Session.{
  Session, Kind, plain, ssl, Context, queue_send, is_full, do_read, do_eof, on_read, on_write,
  upgrade, limit,
}
use advanced_flex_server.Session.Queue.{
  IsDriven, resume, write_ended, on_write_end, on_write_next, queue_send_at, send-IsDriven, read_on,
  on_read-answer,
}
use advanced_flex_server.Session.Wire.{start}

-- `over` says that the reading has come to an end.
pub record Inv (ss : Session) (over : Bool) : Type 0 where
  -- At most one read or handshake is outstanding, and only while the queue has room.
  pub single : ss.reads + ss.handshakes ≤ 1
  pub capped : length ss.items ≤ limit
  pub room : (ss.reads + ss.handshakes ≡ 0) ⊎ (length ss.items < limit)
  -- The write that is outstanding is that of the front of the queue.
  pub driven : IsDriven ss.items ss.writes
  -- Unless reading is over, a read or handshake is outstanding or the queue is full.
  pub alive : (over ≡ true) ⊎ (ss.reads + ss.handshakes ≡ 1) ⊎ (length ss.items ≡ limit)
  -- An outstanding read has a new parser with its limit, and a timeout.
  pub fresh : (ss.reads ≡ 0) ⊎ (ss.parser ≡ some 10000)
  pub timed : (ss.reads + ss.handshakes ≡ 0) ⊎ (ss.timeout ≡ some 30)

Inv-over : {ss : Session} {over : Bool} → Inv ss over → Inv ss true
Inv-over v = ground arith

pub start-Inv : (kind : Kind) (buffer : Bytes) → Inv (start kind buffer).session false
unfolding start
start-Inv plain buffer = ground arith
start-Inv ssl buffer = ground arith

-- What an answer leaves, before the next read is started.
queue_send-Inv :
    (res : Response) (items : List Response) (ss : Session) (over : Bool)
    → ss.items ≡ items
    → ss.reads + ss.handshakes ≡ 0
    → length items < limit
    → IsDriven items ss.writes
    → Inv (read_on (queue_send res ss)) over
unfolding read_on is_full do_read
queue_send-Inv res items ss over e idle room driven =
    rw (queue_send_at res items ss e)
      (ground (arith, length-append items (res ∷ []), send-IsDriven res items ss.writes))

on_read-Inv_over :
    (ctx : Context) (ec : ErrorCode) (req : Request) (ss : Session)
    → Inv (record ss { reads = suc ss.reads }) true
    → is_error ec || req.is_upgrade ≡ true
    → Inv (on_read ctx ec req ss) true
unfolding on_read do_eof upgrade
on_read-Inv_over ctx ec req ss v h = ground arith

pub on_read-Inv :
    (ctx : Context) (ec : ErrorCode) (req : Request) (ss : Session) (over : Bool)
    → Inv (record ss { reads = suc ss.reads }) over
    → Inv (on_read ctx ec req ss) (if is_error ec || req.is_upgrade then true else over)
on_read-Inv ctx ec req ss over v = elim (Bool-cases (is_error ec || req.is_upgrade)) [
  | inl h ↦ rw h (on_read-Inv_over ctx ec req ss (Inv-over v) h)
  | inr h ↦
      let (res, _, e) = on_read-answer ctx ec req ss (ground arith) (ground arith) in
      rw (h, e) (queue_send-Inv res ss.items ss over refl (ground arith) (ground arith) v.driven)
]

resume-Inv :
    (ss : Session) (over : Bool) (res : Response) (xs rest : List Response)
    → ss.items ≡ res ∷ xs
    → Inv (record ss { writes = res ∷ rest }) over
    → Inv (resume (is_full ss) (record ss { items = xs; writes = rest ++ take 1 xs })) over
unfolding resume is_full do_read
resume-Inv ss over res [] rest e v = ground arith
resume-Inv ss over res (y ∷ ys) rest e v = ground arith

write_ended-Inv :
    (ec : ErrorCode) (ss : Session) (over : Bool) (res : Response) (rest : List Response)
    → Inv (record ss { writes = res ∷ rest }) over
    → Inv (write_ended ec (record ss { writes = rest })) over
unfolding write_ended
write_ended-Inv ec ss over res rest v = ground arith

pub front-lem :
    (x : Response) (xs : List Response) (res : Response) (rest : List Response) (ss : Session)
    (over : Bool)
    → ss.items ≡ x ∷ xs
    → Inv (record ss { writes = res ∷ rest }) over
    → ss.items ≡ res ∷ xs
front-lem x xs res rest ss over e v = ground arith

-- The completion of the write that is outstanding.
pub on_write-Inv :
    (close : Bool) (ec : ErrorCode) (items : List Response) (res : Response) (rest : List Response)
    (ss : Session) (over : Bool)
    → ss.items ≡ items
    → Inv (record ss { writes = res ∷ rest }) over
    → Holds (λ t. Inv t over) (on_write close ec (record ss { writes = rest }))
unfolding is_full
on_write-Inv close ec [] res rest ss over e v = ground arith
on_write-Inv close ec (x ∷ xs) res rest ss over e v = elim (Bool-cases (is_error ec || close)) [
  | inl h ↦
      rw (on_write_end close ec (record ss { writes = rest }) h)
        (write_ended-Inv ec ss over res rest v)
  | inr h ↦
      let open_ : close ≡ false = ground arith in
      let ok : is_error ec ≡ false = ground arith in
      let front : ss.items ≡ res ∷ xs = front-lem x xs res rest ss over e v in
      rw (open_, on_write_next res xs ec (record ss { writes = rest }) ok front)
        (resume-Inv ss over res xs rest front v)
]
