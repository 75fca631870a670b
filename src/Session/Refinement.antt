-- ===== src/Session/Refinement.antt =====
-- After any schedule a session of src/c++/systemicai/http/server/sessions.hpp is in a state that
-- Session/Specification can reach.
use advanced_flex_server.Common.{
  ℕ, zero, suc, ◌≤◌, ◌<◌, true, false, ◌||◌, List, [], ◌∷◌, ◌++◌, some, ◌≡◌, ◌⊎◌, inl, inr, refl,
  arith, Bytes, length, ap, sym, ◌∙◌, Bool-cases, run_all-keeps, subst, some-injective, map,
}
use advanced_flex_server.Errors.{ErrorCode, is_error}
use advanced_flex_server.Handler.{Request, Response}
use advanced_flex_server.Session.{
  Kind, plain, ssl, Context, is_full, on_handshake, on_shutdown, do_read,
}
use advanced_flex_server.Session.Wire.{
  Wire, Event, read_done, write_done, handshake_done, shutdown_done, start, deliver, deliver_read,
  deliver_write, deliver_handshake, deliver_shutdown, deliver_all,
}
use advanced_flex_server.Session.Pipelining.{respond}
use advanced_flex_server.Session.Settling.{Resting, start-Resting, deliver-Resting}
use advanced_flex_server.Session.Specification.{
  with_answer, closed_off, without_first, broken_off, Pipeline, Step, accept, stop_accepting,
  deliver_next, deliver_last, break_off, capacity, empty_pipeline, Reach, here, later,
  Reach-IsComplete,
}
use advanced_flex_server.Session.Simulation.{
  Shows, accept-Shows, stop-Shows, break-Shows, last-Shows, next-Shows, write_over, write_next,
}

module _ (ctx : Context) where
  -- What a completion of the session is: one step of the pipeline, or none.
  abbrev pub Follows : Pipeline → Wire → Type 0
  Follows p w' = (p' : Pipeline) × ((p ≡ p') ⊎ Step (respond ctx) ctx.need_eof p p') × Shows w' p'

  read-Follows :
      (n : ℕ) (ec : ErrorCode) (req : Request) (buffer : Bytes) (w w' : Wire) (p : Pipeline)
      → w.session.reads ≡ n
      → Resting ctx w
      → Shows w p
      → deliver_read ctx n ec req buffer w ≡ some w'
      → Follows p w'
  unfolding deliver_read
  read-Follows zero ec req buffer w w' p e r s h = cc
  read-Follows (suc n) ec req buffer w w' p e (v, t) s h =
      let on : p.accepting ≡ true = ground arith in
      let room : length p.pending < capacity = ground arith in
      elim (Bool-cases (is_error ec || req.is_upgrade)) [
        | inl over ↦
            let (w1, k, s1) = stop-Shows ctx n ec req buffer w p s over in
            let same : w1 ≡ w' = some-injective _ _ (sym k ∙ h) in
            (_, inr (stop_accepting on room), subst (λ t. Shows t (closed_off p)) same s1)
        | inr go ↦
            let (res, sent, w1, k, s1) = accept-Shows ctx n ec req buffer w p s go in
            let same : w1 ≡ w' = some-injective _ _ (sym k ∙ h) in
            (
              _,
              inr (accept req res on (ground arith) sent room),
              subst (λ t. Shows t (with_answer req res p)) same s1,
            )
      ]

  front-Follows :
      (ec : ErrorCode) (res : Response) (xs : List Response) (w : Wire) (p : Pipeline)
      → Shows w p
      → p.writing ≡ true
      → p.pending ≡ res ∷ xs
      → w.session.items ≡ res ∷ xs
      → (w' : Wire) × (deliver_write ctx (res ∷ []) ec w ≡ some w') × Follows p w'
  front-Follows ec res xs w p s on first front = elim (Bool-cases (is_error ec)) [
    | inl bad ↦ (
      _,
      write_over ctx ec res w (ground arith),
      (
        broken_off p,
        inr (break_off res xs on first),
        break-Shows ctx ec res xs w p s bad first front,
      ),
    )
    | inr ok ↦ elim (Bool-cases (ctx.need_eof res)) [
      | inl last ↦ (
        _,
        write_over ctx ec res w (ground arith),
        (
          broken_off (without_first res xs p),
          inr (deliver_last res xs on last first),
          last-Shows ctx ec res xs w p s ok first front,
        ),
      )
      | inr goes_on ↦ (
        _,
        write_next ctx ec res xs w ok goes_on front,
        (
          without_first res xs p,
          inr (deliver_next res xs on goes_on first),
          next-Shows ctx ec (is_full w.session) res xs w p s ok on first,
        ),
      )
    ]
  ]

  write-Follows :
      (items writes : List Response) (ec : ErrorCode) (w w' : Wire) (p : Pipeline)
      → w.session.items ≡ items
      → w.session.writes ≡ writes
      → Shows w p
      → deliver_write ctx writes ec w ≡ some w'
      → Follows p w'
  unfolding deliver_write
  write-Follows items [] ec w w' p i e s h = cc
  write-Follows [] (res ∷ rest) ec w w' p i e s h = ground arith
  write-Follows (x ∷ xs) (res ∷ rest) ec w w' p i e s h =
      let on : p.writing ≡ true = ground arith in
      let front : w.session.items ≡ res ∷ xs = ground arith in
      let first : p.pending ≡ res ∷ xs = ground arith in
      let last : rest ≡ [] = ground arith in
      let (w1, k, follows) = front-Follows ec res xs w p s on first front in
      let h1 = subst (λ (r : List Response). deliver_write ctx (res ∷ r) ec w ≡ some w') last h in
      let same : some w1 ≡ some w' = sym k ∙ h1 in
      subst (Follows p) (some-injective _ _ same) follows

  handshake-Follows :
      (n : ℕ) (ec : ErrorCode) (used : ℕ) (w w' : Wire) (p : Pipeline)
      → w.session.handshakes ≡ n
      → Resting ctx w
      → Shows w p
      → deliver_handshake ctx n ec used w ≡ some w'
      → Follows p w'
  unfolding deliver_handshake on_handshake do_read
  handshake-Follows zero ec used w w' p e r s h = cc
  handshake-Follows (suc n) ec used w w' p e (v, t) s h =
      let going : w.read_over ≡ false = ground arith in
      let on : p.accepting ≡ true = ground arith in
      elim (Bool-cases (is_error ec)) [
        | inl bad ↦ (closed_off p, inr (stop_accepting on (ground arith)), ground arith)
        | inr ok ↦ (p, inl refl, ground arith)
      ]

  shutdown-Follows :
      (n : ℕ) (ec : ErrorCode) (w w' : Wire) (p : Pipeline)
      → Shows w p
      → deliver_shutdown ctx n ec w ≡ some w'
      → Follows p w'
  unfolding deliver_shutdown on_shutdown
  shutdown-Follows zero ec w w' p s h = cc
  shutdown-Follows (suc n) ec w w' p s h = (p, inl refl, ground arith)

  pub deliver-Follows :
      (e : Event) (w w' : Wire) (p : Pipeline)
      → Resting ctx w
      → Shows w p
      → deliver ctx e w ≡ some w'
      → Follows p w'
  unfolding deliver
  deliver-Follows (read_done ec req buffer) w w' p r s h =
      read-Follows w.session.reads ec req buffer w w' p refl r s h
  deliver-Follows (write_done ec) w w' p r s h =
      write-Follows w.session.items w.session.writes ec w w' p refl refl s h
  deliver-Follows (handshake_done ec used) w w' p r s h =
      handshake-Follows w.session.handshakes ec used w w' p refl r s h
  deliver-Follows (shutdown_done ec) w w' p r s h =
      shutdown-Follows w.session.shutdowns ec w w' p s h

  -- The specification can reach a state that this session shows.
  abbrev pub Refines : Wire → Type 0
  Refines w = (p : Pipeline) × Reach (respond ctx) ctx.need_eof p × Shows w p

  later_or_same :
      (p p' : Pipeline)
      → Reach (respond ctx) ctx.need_eof p
      → (p ≡ p') ⊎ Step (respond ctx) ctx.need_eof p p'
      → Reach (respond ctx) ctx.need_eof p'
  later_or_same p p' r (inl same) = subst (Reach (respond ctx) ctx.need_eof) same r
  later_or_same p p' r (inr s) = later r s

  deliver-Refines :
      (e : Event) (w w' : Wire)
      → Resting ctx w × Refines w
      → deliver ctx e w ≡ some w'
      → Resting ctx w' × Refines w'
  deliver-Refines e w w' (rests, (p, reached, s)) h =
      let (p', moved, s') = deliver-Follows e w w' p rests s h in
      (deliver-Resting ctx e w w' rests h, (p', later_or_same p p' reached moved, s'))

  start-Refines : (kind : Kind) (buffer : Bytes) → Refines (start kind buffer)
  unfolding start
  start-Refines plain buffer = (empty_pipeline, here, ground arith)
  start-Refines ssl buffer = (empty_pipeline, here, ground arith)

  -- A session refines the specification of Session/Specification: after any schedule of completions
  -- the specification can reach a state with the same requests accepted and the same responses
  -- delivered, which accepts more requests exactly if the reading is not over. While it writes, what
  -- is pending there is the queue, with the write of its front outstanding; otherwise the session
  -- writes no more, and its queue is not empty and has at least as many responses.
  pub deliver_all-Refines :
      (es : List Event) (kind : Kind) (buffer : Bytes) (w : Wire)
      → deliver_all ctx es (start kind buffer) ≡ some w
      → Refines w
  deliver_all-Refines es kind buffer w h =
      (run_all-keeps (deliver ctx) (λ t. Resting ctx t × Refines t) deliver-Refines es
        (start kind buffer) w (start-Resting ctx kind buffer, start-Refines kind buffer) h).1

  -- After any schedule at most 8 of the requests that were read are without their answer: the answers
  -- to all of them are the responses that have gone over the connection, and then those.
  pub unanswered_few :
      (es : List Event) (kind : Kind) (buffer : Bytes) (w : Wire)
      → deliver_all ctx es (start kind buffer) ≡ some w
      → (unanswered : List Response) × (map (respond ctx) w.requests
          ≡ map some (w.transmitted ++ unanswered))
        × (length unanswered ≤ capacity)
  unanswered_few es kind buffer w h =
      let (p, reached, s) = deliver_all-Refines es kind buffer w h in
      let (all, few) = Reach-IsComplete (respond ctx) ctx.need_eof p reached in
      (
        p.pending,
        ap (map (respond ctx)) (sym s.0) ∙ all ∙ ap (λ t. map some (t ++ p.pending)) s.1,
        few,
      )
