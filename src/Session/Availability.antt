-- ===== src/Session/Availability.antt =====
-- While it writes and its stream is open, a session of src/c++/systemicai/http/server/sessions.hpp can do
-- all that Session/Specification allows.
use advanced_flex_server.Common.{
  ℕ, suc, ◌<◌, true, false, List, [], ◌∷◌, ◌++◌, some, ◌≡◌, ◌⊎◌, inl, inr, refl, sym, ◌∙◌, arith,
  Bytes, length, run_all, run_all-step, run_all-snoc, subst, some-injective,
}
use advanced_flex_server.Errors.{ErrorCode, success, other}
use advanced_flex_server.Handler.{Request, Response, get}
use advanced_flex_server.Session.{open_stream, Kind, Context, on_handshake, do_read, is_full}
use advanced_flex_server.Session.Wire.{
  Wire, Event, read_done, write_done, handshake_done, start, deliver, deliver_read, deliver_write,
  deliver_handshake, deliver_all,
}
use advanced_flex_server.Session.Pipelining.{respond}
use advanced_flex_server.Session.Settling.{Resting, deliver_all-Resting}
use advanced_flex_server.Session.Specification.{
  Pipeline, Step, accept, stop_accepting, deliver_next, deliver_last, break_off, with_answer,
  closed_off, without_first, broken_off, capacity,
}
use advanced_flex_server.Session.Simulation.{
  Shows, accept-Shows, stop-Shows, break-Shows, last-Shows, next-Shows, write_over, write_next,
}

module _ (ctx : Context) where
  -- By completions of outstanding operations this session comes to show this pipeline.
  abbrev pub Reaches : Wire → Pipeline → Type 0
  Reaches w p = (es : List Event) × (w' : Wire) × (deliver_all ctx es w ≡ some w') × Shows w' p

  -- By one completion.
  one_event :
      (e : Event) (w w' : Wire) (p : Pipeline)
      → deliver ctx e w ≡ some w'
      → Shows w' p
      → Reaches w p
  unfolding run_all
  one_event e w w' p k s = (e ∷ [], w', run_all-step (deliver ctx) e [] w w' k, s)

  -- A session that accepts requests and has room for an answer has a read outstanding, at the latest
  -- when its handshake has completed.
  can_read :
      (w : Wire) (p : Pipeline)
      → Resting ctx w
      → Shows w p
      → p.writing ≡ true
      → p.accepting ≡ true
      → length p.pending < capacity
      → (w.session.reads ≡ 1) ⊎ ((w.session.reads ≡ 0) × (w.session.handshakes ≡ 1))
  can_read w p (v, t) s on open_ room = ground arith

  -- Some request.
  abbrev blank : Request
  blank = record { method = get; target = []; version = 11; keep_alive = true; is_upgrade = false }

  read_event :
      (n : ℕ) (ec : ErrorCode) (req : Request) (w : Wire)
      → w.session.reads ≡ n
      → deliver ctx (read_done ec req []) w ≡ deliver_read ctx n ec req [] w
  unfolding deliver
  read_event n ec req w e = rw e refl

  write_event :
      (writes : List Response) (ec : ErrorCode) (w : Wire)
      → w.session.writes ≡ writes
      → deliver ctx (write_done ec) w ≡ deliver_write ctx writes ec w
  unfolding deliver
  write_event writes ec w e = rw e refl

  handshake_event :
      (n : ℕ) (ec : ErrorCode) (w : Wire)
      → w.session.handshakes ≡ n
      → deliver ctx (handshake_done ec 0) w ≡ deliver_handshake ctx n ec 0 w
  unfolding deliver
  handshake_event n ec w e = rw e refl

  -- The handshake completes, and a read is outstanding.
  shaken :
      (n : ℕ) (w : Wire) (p : Pipeline)
      → Shows w p
      → w.session.reads ≡ 0
      → w.session.handshakes ≡ suc n
      → (w' : Wire) × (deliver ctx (handshake_done success 0) w ≡ some w')
        × Shows w' p
        × (w'.session.reads ≡ 1)
  unfolding deliver_handshake on_handshake do_read
  shaken n w p s idle e = (_, handshake_event (suc n) success w e, ground arith, ground arith)

  ready :
      (w : Wire) (p : Pipeline)
      → Resting ctx w
      → Shows w p
      → p.writing ≡ true
      → p.accepting ≡ true
      → length p.pending < capacity
      → (es : List Event) × (w' : Wire) × (deliver_all ctx es w ≡ some w')
        × Shows w' p
        × (w'.session.reads ≡ 1)
  unfolding run_all
  ready w p r s on open_ room = elim (can_read w p r s on open_ room) [
    | inl now ↦ ([], w, refl, s, now)
    | inr (idle, shaking) ↦
        let (w', k, s', now) = shaken 0 w p s idle shaking in
        (
          handshake_done success 0 ∷ [],
          w',
          run_all-step (deliver ctx) (handshake_done success 0) [] w w' k,
          s',
          now,
        )
  ]

  -- A write of the first pending answer is outstanding.
  front_written :
      (w : Wire) (p : Pipeline) (res : Response) (rest : List Response)
      → Shows w p
      → p.writing ≡ true
      → p.pending ≡ res ∷ rest
      → (w.session.items ≡ res ∷ rest) × (w.session.writes ≡ res ∷ [])
  front_written w p res rest s on first = ground arith

  -- With a read outstanding, a completion of it leads on to this pipeline.
  reads_on :
      (w : Wire) (p q : Pipeline) (ec : ErrorCode) (req : Request)
      → Resting ctx w
      → Shows w p
      → p.writing ≡ true
      → p.accepting ≡ true
      → length p.pending < capacity
      → ((v : Wire)
          → Shows v p
          → (w' : Wire) × (deliver_read ctx 1 ec req [] v ≡ some w') × Shows w' q)
      → Reaches w q
  reads_on w p q ec req r s on open_ room then_ =
      let (es, v, k, s', now) = ready w p r s on open_ room in
      let (w', k', t) = then_ v s' in
      (
        es ++ read_done ec req [] ∷ [],
        w',
        run_all-snoc (deliver ctx) es (read_done ec req []) w v w' k
            (read_event 1 ec req v now ∙ k'),
        t,
      )

  accepts :
      (w : Wire) (p : Pipeline) (req : Request) (res : Response)
      → Resting ctx w
      → Shows w p
      → p.writing ≡ true
      → p.accepting ≡ true
      → req.is_upgrade ≡ false
      → respond ctx req ≡ some res
      → length p.pending < capacity
      → Reaches w (with_answer req res p)
  accepts w p req res r s on open_ plain answered room =
      reads_on w p (with_answer req res p) success req r s on open_ room (λ v s'.
        let (res', sent, w', k, t) = accept-Shows ctx 0 success req [] v p s' (ground arith) in
        let same : res' ≡ res = some-injective _ _ (sym sent ∙ answered) in
        (w', k, subst (λ (x : Response). Shows w' (with_answer req x p)) same t))

  Step-Reaches :
      (w : Wire) (p q : Pipeline)
      → Resting ctx w
      → Shows w p
      → p.writing ≡ true
      → Step (respond ctx) ctx.need_eof p q
      → Reaches w q
  Step-Reaches w p q r s on (accept req res open_ plain answered room) =
      accepts w p req res r s on open_ plain answered room
  Step-Reaches w p q r s on (stop_accepting open_ room) =
      reads_on w p (closed_off p) (other 1) blank r s on open_ room
        (λ v s'. stop-Shows ctx 0 (other 1) blank [] v p s' refl)
  Step-Reaches w p q r s on (deliver_next res rest open_ goes_on first) =
      let (items, writes) = front_written w p res rest s on first in
      one_event (write_done success) w _ (without_first res rest p)
        (write_event (res ∷ []) success w writes
          ∙ write_next ctx success res rest w refl goes_on items)
        (next-Shows ctx success (is_full w.session) res rest w p s refl on first)
  Step-Reaches w p q r s on (deliver_last res rest open_ ends first) =
      let (items, writes) = front_written w p res rest s on first in
      one_event (write_done success) w _ (broken_off (without_first res rest p))
        (write_event (res ∷ []) success w writes ∙ write_over ctx success res w ends)
        (last-Shows ctx success res rest w p s refl first items)
  Step-Reaches w p q r s on (break_off res rest open_ first) =
      let (items, writes) = front_written w p res rest s on first in
      one_event (write_done (other 1)) w _ (broken_off p)
        (write_event (res ∷ []) (other 1) w writes ∙ write_over ctx (other 1) res w refl)
        (break-Shows ctx (other 1) res rest w p s refl first items)

  pub deliver_all-Reaches :
      (es : List Event) (kind : Kind) (buffer : Bytes) (w : Wire) (p q : Pipeline)
      → deliver_all ctx es (start kind buffer) ≡ some w
      → w.session.stream ≡ open_stream
      → Shows w p
      → p.writing ≡ true
      → Step (respond ctx) ctx.need_eof p q
      → Reaches w q
  deliver_all-Reaches es kind buffer w p q h sends s on step =
      Step-Reaches w p q (deliver_all-Resting ctx es kind buffer w h) s on step
