-- ===== src/Handler/Answer.antt =====
-- What `default_handle_request` of src/c++/systemicai/http/server/handlers/handler.hpp answers.
use mathlib.Core.Option
use advanced_flex_server.Common.{
  false, Option, none, some, ◌≡◌, ◌≢◌, ◌↔◌, ◌⊎◌, arith, Bytes, codes, find, c_str, front?, length,
}
use advanced_flex_server.Errors.{is_error}
use advanced_flex_server.Functions.{mime_type}
use advanced_flex_server.ServerSettings.{Settings}
use advanced_flex_server.Handler.{
  get, head, Request, Response, ok, bad_request, Body, file_body, empty_body, string_body,
  content_length, prepare_payload, Platform, default_handle_request, served_path,
}

-- The receiver of the response, after it.
abbrev pub received : {S : Type 0} → (Response → S → S) → S → Option Response → S
received send st none = st
received send st (some res) = send res st

module _ (p : Platform) (root : Bytes) (req : Request) (s : Settings) where
  -- The last response that is sent, `none` if there is none.
  unfoldable pub answer : Option Response
  unfolding default_handle_request
  answer = default_handle_request p root req (λ res _. some res) s none

  -- Exactly one response is sent for a request, and nothing else changes the state of its receiver.
  pub default_handle_request-answer :
      {S : Type 0} (send : Response → S → S) (st : S)
      → (answer ≢ none) × (default_handle_request p root req send s st ≡ received send st answer)
  unfolding answer
  default_handle_request-answer send st = (ground arith, ground arith)

  -- Every response carries the version and the keep-alive flag of its request, and the version of
  -- the service.
  pub answer_header :
      (res : Response)
      → answer ≡ some res
      → (res.version ≡ req.version)
        × (res.keep_alive ≡ req.keep_alive)
        × (res.server ≡ s.service_version)
  unfolding answer
  answer_header res e = ground arith

  -- An error response has a text, and its length by `prepare_payload`; a served file has the media
  -- type of its path, and the length of its contents, which are the body, but for a HEAD request.
  abbrev pub Framed : Response → Type 0
  Framed res =
      let path = served_path root req.target in
      let contents = (p.open_file (c_str path)).1 in
      ((res.status ≢ ok)
        × (res.framing ≡ prepare_payload)
        × (res.content_type ≡ codes "text/html")
        × ((text : Bytes) × (res.body ≡ string_body text)))
      ⊎ (res.status ≡ ok)
        × (res.framing ≡ content_length (length contents))
        × (res.content_type ≡ mime_type p.iequals path)
        × (((req.method ≡ get) × (res.body ≡ file_body contents))
            ⊎ (req.method ≡ head) × (res.body ≡ empty_body))

  -- Every response carries the version and the keep-alive flag of its request, and the version of
  -- the service. An error response has a text of type text/html, whose length prepare_payload
  -- announces. A file is sent with the media type of its path and the length of its contents, for a
  -- HEAD request too; these are the body for a GET request, and for a HEAD request it is empty.
  pub answer_framing :
      (res : Response)
      → answer ≡ some res
      → (res.version ≡ req.version)
        × (res.keep_alive ≡ req.keep_alive)
        × (res.server ≡ s.service_version)
        × Framed res
  unfolding answer
  answer_framing res e =
      let (version, keep, server) = answer_header res e in (version, keep, server, ground arith)

  -- A file is served exactly for a GET or HEAD request whose target begins with a slash and holds no
  -- "..", if the file at its path can be opened.
  pub answer-ok_iff :
      (res : Response)
      → answer ≡ some res
      → (res.status ≡ ok) ↔ (
          ((req.method ≡ get) ⊎ (req.method ≡ head))
          × (front? req.target ≡ some b'/')
          × (find req.target (codes "..") ≡ none)
          × (is_error (p.open_file (c_str (served_path root req.target))).0 ≡ false))
  unfolding answer
  answer-ok_iff res e = ground arith

  -- The request is refused as bad exactly if its method is neither GET nor HEAD, or its target does
  -- not begin with a slash, or holds "..".
  pub answer-bad_request_iff :
      (res : Response)
      → answer ≡ some res
      → (res.status ≡ bad_request) ↔ (
          ((req.method ≢ get) × (req.method ≢ head))
          ⊎ (front? req.target ≢ some b'/')
          ⊎ (find req.target (codes "..") ≢ none))
  unfolding answer
  answer-bad_request_iff res e = ground arith

abbrev no_file : Body → Body
no_file (file_body contents) = empty_body
no_file other = other

-- The response with an empty body in place of a file.
pub without_file : Response → Response
without_file res = record res { body = no_file res.body }

-- A HEAD request is answered as the GET request for the same target, with no file as the body; the
-- text of an error response stays.
pub answer_head :
    (p : Platform) (root : Bytes) (req : Request) (s : Settings)
    → answer p root (record req { method = head }) s
      ≡ Option.map without_file (answer p root (record req { method = get }) s)
unfolding answer without_file
answer_head p root req s = ground arith
