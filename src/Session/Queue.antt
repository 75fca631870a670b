-- ===== src/Session/Queue.antt =====
-- The queue of a session (src/c++/systemicai/http/server/sessions.hpp, `http_session::queue`).
use advanced_flex_server.Common.{
  Bool, true, false, not, List, [], ◌∷◌, ◌++◌, some, ◌≡◌, ◌≢◌, ◌⊎◌, inl, inr, arith, length-append,
  append-nil, ◌||◌, Option-cases, ap, ◌∙◌, take, if◌then◌else◌,
}
use advanced_flex_server.Errors.{ErrorCode, is_error, fail}
use advanced_flex_server.Handler.{Request, Response, handle_request}
use advanced_flex_server.Handler.Answer.{answer, received, default_handle_request-answer}
use advanced_flex_server.Handler.Registry.{handle_request-default}
use advanced_flex_server.Session.{
  Session, Context, queue_send, queue_on_write, is_full, do_read, do_eof, on_read, on_write,
}

-- The writes that are outstanding: that of the front of the queue, or none, after a write that
-- failed or that closed the connection.
abbrev pub IsDriven : List Response → List Response → Type 0
IsDriven items writes = (writes ≡ take 1 items) ⊎ ((writes ≡ []) × (items ≢ []))

module _ (res : Response) where
  unfoldable pub send_items : List Response → List Response → List Response
  send_items [] writes = writes ++ res ∷ []
  send_items (x ∷ xs) writes = writes

  pub queue_send_at :
      (items : List Response) (ss : Session)
      → ss.items ≡ items
      → queue_send res ss
        ≡ record ss { items = items ++ res ∷ []; writes = send_items items ss.writes }
  unfolding queue_send send_items
  queue_send_at [] ss e = ground arith
  queue_send_at (x ∷ xs) ss e = ground (arith, length-append xs (res ∷ []))

  -- Sending keeps the queue driven.
  pub send-IsDriven :
      (items writes : List Response)
      → IsDriven items writes
      → IsDriven (items ++ res ∷ []) (send_items items writes)
  unfolding send_items
  send-IsDriven [] writes d = ground arith
  send-IsDriven (x ∷ xs) writes d = ground arith

-- The rest of `on_read` after the answer to a request.
unfoldable pub read_on : Session → Session
read_on ss = if not (is_full ss) then do_read ss else ss

module _ (ctx : Context) (ec : ErrorCode) (req : Request) (ss : Session) where
  answered :
      (res : Response) × (answer ctx.platform ctx.settings.document_root req ctx.settings
        ≡ some res)
      × (handle_request ctx.platform ctx.handlers ctx.doc_root req queue_send ctx.settings ss
          ≡ queue_send res ss)
  answered =
      let root = ctx.settings.document_root in
      let default =
        handle_request-default ctx.platform ctx.handlers ctx.doc_root req queue_send ctx.settings
          ss in
      let (sent, e) =
        default_handle_request-answer ctx.platform root req ctx.settings queue_send ss in
      elim (Option-cases (answer ctx.platform root req ctx.settings)) [
        | inl missing ↦ absurd (sent missing)
        | inr (res, h) ↦ (res, h, default ∙ e ∙ ap (received queue_send ss) h)
      ]

  on_read_plain :
      is_error ec ≡ false
      → req.is_upgrade ≡ false
      → on_read ctx ec req ss
        ≡ read_on
            (handle_request ctx.platform ctx.handlers ctx.doc_root req queue_send ctx.settings ss)
  unfolding on_read read_on
  on_read_plain ok plain = ground arith

  -- A request that is read and asks for no upgrade is answered, by the response that the default
  -- handler gives for it, and this response goes to the end of the queue.
  pub on_read-answer :
      is_error ec ≡ false
      → req.is_upgrade ≡ false
      → (res : Response) × (answer ctx.platform ctx.settings.document_root req ctx.settings
          ≡ some res)
        × (on_read ctx ec req ss ≡ read_on (queue_send res ss))
  on_read-answer ok plain =
      let (res, h, e) = answered in (res, h, on_read_plain ok plain ∙ ap read_on e)

-- The rest of `on_write` after the queue has gone on to its next item.
unfoldable pub resume : Bool → Session → Session
resume was_full ss = if was_full then do_read ss else ss

module _ (x : Response) where
  queue_on_write_at :
      (xs : List Response) (ss : Session)
      → ss.items ≡ x ∷ xs
      → queue_on_write ss
        ≡ some (record ss { items = xs; writes = ss.writes ++ take 1 xs }, is_full ss)
  unfolding queue_on_write
  queue_on_write_at [] ss e = ground (arith, append-nil ss.writes)
  queue_on_write_at (y ∷ ys) ss e = ground arith

  -- A write that completes takes its response off the queue and starts the write of the next one.
  pub on_write_next :
      (xs : List Response) (ec : ErrorCode) (ss : Session)
      → is_error ec ≡ false
      → ss.items ≡ x ∷ xs
      → on_write false ec ss
        ≡ some (resume (is_full ss) (record ss { items = xs; writes = ss.writes ++ take 1 xs }))
  unfolding on_write resume
  on_write_next xs ec ss ok e = ground (arith, queue_on_write_at xs ss e)

-- A write that fails, or that closes the connection, takes nothing off the queue.
unfoldable pub write_ended : ErrorCode → Session → Session
unfolding do_eof
write_ended ec ss = if is_error ec then record ss { log = fail ec "write" ss.log } else do_eof ss

pub on_write_end :
    (close : Bool) (ec : ErrorCode) (ss : Session)
    → is_error ec || close ≡ true
    → on_write close ec ss ≡ some (write_ended ec ss)
unfolding on_write write_ended
on_write_end close ec ss h = ground arith
