-- ===== src/Session/LastResponse.antt =====
-- The response that ends a connection of src/c++/systemicai/http/server/sessions.hpp.
use advanced_flex_server.Common.{
  ℕ, zero, suc, Bool, true, false, ◌||◌, List, [], ◌∷◌, ◌++◌, some, ◌≡◌, ◌≢◌, ◌⊎◌, inl, inr, refl,
  arith, Bytes, ButLast, All-ButLast, ButLast-append, ButLast-split, All, All-append, Bool-cases,
  run_all-keeps, run_all, subst, some-injective,
}
use advanced_flex_server.Errors.{ErrorCode, is_error}
use advanced_flex_server.Handler.{Request, Response}
use advanced_flex_server.Session.{
  Session, Kind, Context, queue_send, do_read, on_handshake, on_shutdown,
}
use advanced_flex_server.Session.Queue.{
  send_items, resume, write_ended, on_write_end, on_write_next, queue_send_at, on_read-answer,
}
use advanced_flex_server.Session.Wire.{
  Wire, Event, read_done, write_done, handshake_done, shutdown_done, start, deliver, deliver_read,
  deliver_write, deliver_handshake, deliver_shutdown, deliver_all, note_write, keeps_deliver,
}
use advanced_flex_server.Session.Schedules.{WireInv, deliver-Inv, deliver_all-Inv}
use advanced_flex_server.Session.Pipelining.{read_on_keeps, on_read_over, write_ended_keeps}

-- The writing has come to an end, and the response with which it did is still queued.
abbrev Halted : List Response → List Response → Type 0
Halted items writes = (writes ≡ []) × (items ≢ [])

Halted-send :
    (res : Response) (items writes : List Response)
    → Halted items writes
    → Halted (items ++ res ∷ []) (send_items res items writes)
unfolding send_items
Halted-send res [] writes h = ground arith
Halted-send res (x ∷ xs) writes h = ground arith

module _ (ctx : Context) where
  abbrev Open : Response → Type 0
  Open res = ctx.need_eof res ≡ false

  -- No response that ends the connection has been followed by another; if the last one does, the
  -- writing has been halted.
  record Sealed (transmitted items writes : List Response) : Type 0 where
    followed : ButLast Open transmitted
    halted : Halted items writes ⊎ All Open transmitted

  abbrev SealedWire : Wire → Type 0
  SealedWire w = Sealed w.transmitted w.session.items w.session.writes

  Sealed-send :
      (res : Response) (transmitted items writes : List Response)
      → Sealed transmitted items writes
      → Sealed transmitted (items ++ res ∷ []) (send_items res items writes)
  Sealed-send res transmitted items writes v = record {
    followed = v.followed;
    halted = elim v.halted [ inl h ↦ inl (Halted-send res items writes h) | inr all ↦ inr all ];
  }

  read-Sealed :
      (n : ℕ) (ec : ErrorCode) (req : Request) (buffer : Bytes) (w w' : Wire)
      → w.session.reads ≡ n
      → SealedWire w
      → deliver_read ctx n ec req buffer w ≡ some w'
      → SealedWire w'
  unfolding deliver_read
  read-Sealed zero ec req buffer w w' e v h = cc
  read-Sealed (suc n) ec req buffer w w' e v h =
      let ss = record w.session { reads = n; buffer = buffer } in
      let same = some-injective _ _ h in
      elim (Bool-cases (is_error ec || req.is_upgrade)) [
        | inl over ↦
            let (items, writes) = on_read_over ctx ec req ss over in
            rw (← same) (rw (items, writes) v)
        | inr go ↦
            let (res, sent, next) = on_read-answer ctx ec req ss (ground arith) (ground arith) in
            let (items, writes) = read_on_keeps (queue_send res ss) in
            rw (← same) (
              rw (next, items, writes, queue_send_at res ss.items ss refl)
                (Sealed-send res w.transmitted ss.items ss.writes v))
      ]

  -- While a write is outstanding, no response that ends the connection has gone over it.
  still_open :
      (res : Response) (rest transmitted items : List Response)
      → Sealed transmitted items (res ∷ rest)
      → All Open transmitted
  still_open res rest transmitted items v = elim v.halted [
    | inl (none_left, _) ↦ cc
    | inr all ↦ all
  ]

  ended-Sealed :
      (ec : ErrorCode) (res : Response) (w : Wire) (ss : Session)
      → ss.items ≢ []
      → ss.writes ≡ []
      → All Open w.transmitted
      → SealedWire (note_write ec res w (write_ended ec ss))
  unfolding note_write
  ended-Sealed ec res w ss queued idle all =
      let (items, writes) = write_ended_keeps ec ss in
      rw (items, writes)
        (elim (Bool-cases (is_error ec)) [
          | inl bad ↦
              rw bad (record { followed = All-ButLast Open w.transmitted all; halted = inr all })
          | inr ok ↦ rw ok (record {
            followed = ButLast-append Open w.transmitted res all;
            halted = inl (idle, queued);
          })
        ])

  next-Sealed :
      (ec : ErrorCode) (full : Bool) (res : Response) (w : Wire) (ss : Session)
      → is_error ec ≡ false
      → Open res
      → All Open w.transmitted
      → SealedWire (note_write ec res w (resume full ss))
  unfolding note_write
  next-Sealed ec full res w ss ok open_ all = rw ok (record {
    followed = ButLast-append Open w.transmitted res all;
    halted = inr (All-append Open w.transmitted (res ∷ []) all (open_, tt));
  })

  write-Sealed :
      (items writes : List Response) (ec : ErrorCode) (w w' : Wire)
      → w.session.items ≡ items
      → w.session.writes ≡ writes
      → WireInv w
      → SealedWire w
      → deliver_write ctx writes ec w ≡ some w'
      → SealedWire w'
  unfolding deliver_write
  write-Sealed items [] ec w w' i e v t h = cc
  write-Sealed [] (res ∷ rest) ec w w' i e v t h = ground arith
  write-Sealed (x ∷ xs) (res ∷ rest) ec w w' i e v t h =
      let ss = record w.session { writes = rest } in
      let close = ctx.need_eof res in
      let all =
        still_open res rest w.transmitted w.session.items
          (subst (λ ws. Sealed w.transmitted w.session.items ws) e t) in
      let last : rest ≡ [] = ground arith in
      elim (Bool-cases (is_error ec || close)) [
        | inl over ↦
            let same : some _ ≡ some w' = rw (on_write_end close ec ss over) at h in
            rw (← (some-injective _ _ same)) (ended-Sealed ec res w ss (ground arith) last all)
        | inr go ↦
            let front : w.session.items ≡ res ∷ xs = ground arith in
            let open_ : close ≡ false = ground arith in
            let same : some _ ≡ some w' =
              rw (open_, on_write_next res xs ec ss (ground arith) front) at h in
            rw (← (some-injective _ _ same)) (next-Sealed ec _ res w _ (ground arith) open_ all)
      ]

  same-Sealed :
      (w w' : Wire)
      → w'.transmitted ≡ w.transmitted
      → w'.session.items ≡ w.session.items
      → w'.session.writes ≡ w.session.writes
      → SealedWire w
      → SealedWire w'
  same-Sealed w w' transmitted items writes v = rw (transmitted, items, writes) v

  deliver-Sealed :
      (e : Event) (w w' : Wire)
      → WireInv w
      → SealedWire w
      → deliver ctx e w ≡ some w'
      → SealedWire w'
  unfolding deliver deliver_handshake deliver_shutdown on_handshake do_read on_shutdown
  deliver-Sealed (read_done ec req buffer) w w' v t h =
      read-Sealed w.session.reads ec req buffer w w' refl t h
  deliver-Sealed (write_done ec) w w' v t h =
      write-Sealed w.session.items w.session.writes ec w w' refl refl v t h
  deliver-Sealed (handshake_done ec used) w w' v t h =
      same-Sealed w w' (ground arith) (ground arith) (ground arith) t
  deliver-Sealed (shutdown_done ec) w w' v t h =
      same-Sealed w w' (ground arith) (ground arith) (ground arith) t

  started :
      (kind : Kind) (buffer : Bytes) → WireInv (start kind buffer) × SealedWire (start kind buffer)
  unfolding start run_all
  started kind buffer =
      (deliver_all-Inv ctx [] kind buffer _ refl, record { followed = tt; halted = inr tt })

  -- A response that ends the connection is the last one on it: after any schedule of completions,
  -- no other response has gone over the connection behind it.
  pub close_is_last :
      (es : List Event) (kind : Kind) (buffer : Bytes) (w : Wire) (before after : List Response)
      (res : Response)
      → deliver_all ctx es (start kind buffer) ≡ some w
      → w.transmitted ≡ before ++ res ∷ after
      → ctx.need_eof res ≡ true
      → after ≡ []
  close_is_last es kind buffer w before [] res h split closes = refl
  close_is_last es kind buffer w before (next ∷ more) res h split closes =
      let (_, v) =
        run_all-keeps (deliver ctx) (λ u. WireInv u × SealedWire u)
          (λ e u u' (inv, t) k. (
            keeps_deliver ctx WireInv (deliver-Inv ctx) e u u' inv k,
            deliver-Sealed e u u' inv t k,
          ))
          es (start kind buffer) w (started kind buffer) h in
      let open_ : ctx.need_eof res ≡ false =
        ButLast-split Open before res next more (rw split at v.followed) in
      absurd (ground (arith, open_, closes))
