-- ===== src/Session/Pipelining.antt =====
-- The order of the responses of src/c++/systemicai/http/server/sessions.hpp: HTTP pipelining.
use advanced_flex_server.Common.{
  ℕ, Bool, true, false, ◌||◌, List, [], ◌∷◌, ◌++◌, map, Option, some, ◌≡◌, ◌≢◌, refl, ap, ◌∙◌, ◌⊎◌,
  inl, inr, arith, take, Bytes, suc, Bool-cases, Holds, map-append,
}
use advanced_flex_server.Errors.{ErrorCode, is_error}
use advanced_flex_server.Handler.{Request, Response}
use advanced_flex_server.Handler.Answer.{answer}
use advanced_flex_server.Session.{
  Session, Kind, plain, ssl, Context, queue_send, is_full, do_read, do_eof, on_read, upgrade,
  on_handshake, on_shutdown,
}
use advanced_flex_server.Session.Queue.{
  resume, write_ended, on_write_end, on_write_next, queue_send_at, read_on, on_read-answer,
}
use advanced_flex_server.Session.Wire.{
  Wire, Event, start, deliver_read, deliver_write, deliver_handshake, deliver_shutdown, deliver_all,
  Keeps, deliver_all_keeps, note_write,
}
use advanced_flex_server.Session.Flow.{IsPrefixOf, Flow, Flow-send, Flow-front, regroup}

pub read_on_keeps :
    (ss : Session) → ((read_on ss).items ≡ ss.items) × ((read_on ss).writes ≡ ss.writes)
unfolding read_on do_read
read_on_keeps ss = ground arith

pub on_read_over :
    (ctx : Context) (ec : ErrorCode) (req : Request) (ss : Session)
    → is_error ec || req.is_upgrade ≡ true
    → ((on_read ctx ec req ss).items ≡ ss.items) × ((on_read ctx ec req ss).writes ≡ ss.writes)
unfolding on_read do_eof upgrade
on_read_over ctx ec req ss h = ground arith

pub resume_keeps :
    (full : Bool) (ss : Session)
    → ((resume full ss).items ≡ ss.items) × ((resume full ss).writes ≡ ss.writes)
unfolding resume do_read
resume_keeps full ss = ground arith

pub write_ended_keeps :
    (ec : ErrorCode) (ss : Session)
    → ((write_ended ec ss).items ≡ ss.items) × ((write_ended ec ss).writes ≡ ss.writes)
unfolding write_ended do_eof
write_ended_keeps ec ss = ground arith

module _ (ctx : Context) where
  -- The answer to a request, as the handler gives it.
  abbrev pub respond : Request → Option Response
  respond req = answer ctx.platform ctx.settings.document_root req ctx.settings

  abbrev FlowWire : Wire → Type 0
  FlowWire w = Flow (map respond w.requests) w.transmitted w.session.items w.session.writes

  read-Flow :
      (n : ℕ) (ec : ErrorCode) (req : Request) (buffer : Bytes) (w : Wire)
      → w.session.reads ≡ suc n
      → FlowWire w
      → Holds FlowWire (deliver_read ctx (suc n) ec req buffer w)
  unfolding deliver_read
  read-Flow n ec req buffer w e f =
      let ss = record w.session { reads = n; buffer = buffer } in
      elim (Bool-cases (is_error ec || req.is_upgrade)) [
        | inl over ↦
            let (items, writes) = on_read_over ctx ec req ss over in rw (over, items, writes) f
        | inr go ↦
            let (res, sent, next) = on_read-answer ctx ec req ss (ground arith) (ground arith) in
            let (items, writes) = read_on_keeps (queue_send res ss) in
            let answers = map-append respond w.requests (req ∷ []) in
            rw (go, next, items, writes, queue_send_at res ss.items ss refl, answers, sent)
              (Flow-send (map respond w.requests) w.transmitted ss.items ss.writes res f)
      ]

  ended-Flow :
      (ec : ErrorCode) (res : Response) (xs : List Response) (w : Wire) (ss : Session)
      → ss.items ≡ res ∷ xs
      → ss.writes ≡ []
      → map respond w.requests ≡ map some (w.transmitted ++ res ∷ xs)
      → FlowWire (note_write ec res w (write_ended ec ss))
  unfolding note_write
  ended-Flow ec res xs w ss items writes answers =
      let (same_items, same_writes) = write_ended_keeps ec ss in
      let left : (write_ended ec ss).items ≢ [] = rw (same_items, items) (λ h. cc) in
      elim (Bool-cases (is_error ec)) [
        | inl bad ↦ rw bad (inr (same_writes ∙ writes, left, (res ∷ xs, answers)))
        | inr ok ↦ rw ok (
            inr (
              same_writes ∙ writes,
              left,
              (xs, regroup (map respond w.requests) w.transmitted res xs answers),
            ))
      ]

  next-Flow :
      (ec : ErrorCode) (full : Bool) (res : Response) (xs : List Response) (w : Wire) (ss : Session)
      → is_error ec ≡ false
      → ss.items ≡ xs
      → ss.writes ≡ take 1 xs
      → map respond w.requests ≡ map some (w.transmitted ++ res ∷ xs)
      → FlowWire (note_write ec res w (resume full ss))
  unfolding note_write
  next-Flow ec full res xs w ss ok items writes answers =
      let (same_items, same_writes) = resume_keeps full ss in
      rw (ok, same_items, same_writes, items, writes)
        (inl (regroup (map respond w.requests) w.transmitted res xs answers, refl))

  write-Flow :
      (res : Response) (rest : List Response) (ec : ErrorCode) (w : Wire)
      → w.session.writes ≡ res ∷ rest
      → FlowWire w
      → Holds FlowWire (deliver_write ctx (res ∷ rest) ec w)
  unfolding deliver_write
  write-Flow res rest ec w e f =
      let (xs, items, last, answers) =
        Flow-front (map respond w.requests) w.transmitted w.session.items res rest (rw e at f) in
      let ss = record w.session { writes = rest } in
      elim (Bool-cases (is_error ec || ctx.need_eof res)) [
        | inl over ↦
            rw (on_write_end (ctx.need_eof res) ec ss over)
              (ended-Flow ec res xs w ss items last answers)
        | inr go ↦
            let keep : ctx.need_eof res ≡ false = ground arith in
            let ok : is_error ec ≡ false = ground arith in
            rw (keep, on_write_next res xs ec ss ok items)
              (next-Flow ec (is_full ss) res xs w
                (record ss { items = xs; writes = rest ++ take 1 xs }) ok refl
                (ap (λ r. r ++ take 1 xs) last) answers)
      ]

  handshake-Flow :
      (n : ℕ) (ec : ErrorCode) (used : ℕ) (w : Wire)
      → w.session.handshakes ≡ suc n
      → FlowWire w
      → Holds FlowWire (deliver_handshake ctx (suc n) ec used w)
  unfolding deliver_handshake on_handshake do_read
  handshake-Flow n ec used w e f = elim (Bool-cases (is_error ec)) [
    | inl bad ↦ rw bad f
    | inr ok ↦ rw ok f
  ]

  shutdown-Flow :
      (n : ℕ) (ec : ErrorCode) (w : Wire)
      → w.session.shutdowns ≡ suc n
      → FlowWire w
      → Holds FlowWire (deliver_shutdown ctx (suc n) ec w)
  unfolding deliver_shutdown on_shutdown
  shutdown-Flow n ec w e f = elim (Bool-cases (is_error ec)) [
    | inl bad ↦ rw bad f
    | inr ok ↦ rw ok f
  ]

  deliver-Flow : Keeps ctx FlowWire
  deliver-Flow = record {
    read = read-Flow;
    write = write-Flow;
    handshake = handshake-Flow;
    shutdown = shutdown-Flow;
  }

  start-Flow : (kind : Kind) (buffer : Bytes) → FlowWire (start kind buffer)
  unfolding start
  start-Flow plain buffer = inl (refl, refl)
  start-Flow ssl buffer = inl (refl, refl)

  module _ (es : List Event) (kind : Kind) (buffer : Bytes) (w : Wire)
      (h : deliver_all ctx es (start kind buffer) ≡ some w) where
    flow : FlowWire w
    flow =
        deliver_all_keeps ctx FlowWire deliver-Flow es (start kind buffer) w
          (start-Flow kind buffer) h

    -- Pipelining keeps the order: after any schedule of completions, the responses that have gone over
    -- the connection are the answers to the first of the requests that were read, each once and in
    -- the order of the requests.
    pub transmitted_in_order : IsPrefixOf w.transmitted (map respond w.requests)
    transmitted_in_order = elim flow [
      | inl (answers, _) ↦ (w.session.items, answers)
      | inr (_, _, prefix) ↦ prefix
    ]

    -- While a write is outstanding, or the queue is empty, the queue holds, in order, exactly the answers
    -- that have not gone over the connection yet.
    pub queue_complete :
        (w.session.writes ≢ []) ⊎ (w.session.items ≡ [])
        → map respond w.requests ≡ map some (w.transmitted ++ w.session.items)
    queue_complete going = ground (arith, flow)
