-- ===== src/Handler.antt =====
-- The request handlers of src/c++/systemicai/http/server/handlers/handler.hpp. A request holds what
-- the accessors of Boost's request return; a response, what the handler sets on it. The file system,
-- the texts of error codes and `beast::iequals` are a `Platform`.
pub mod Answer
pub mod Containment
pub mod Registry
pub mod Sample
mod Tests
use advanced_flex_server.Common.{
  ℕ, Bool, true, false, not, ◌&&◌, ◌||◌, List, [], ◌∷◌, ◌++◌, Option, none, some, Bytes, codes,
  find, c_str, front?, is_empty, length, ◌==◌, if◌then◌else◌,
}
use advanced_flex_server.Errors.{ErrorCode, is_error}
use advanced_flex_server.Functions.{mime_type, path_cat, ends_with}
use advanced_flex_server.ServerSettings.{Settings}

pub data Verb : Type 0 where
  get head : Verb
  other_verb : ℕ → Verb

pub record Request : Type 0 where
  pub method : Verb
  pub target : Bytes
  pub version : ℕ
  pub keep_alive : Bool
  pub is_upgrade : Bool

pub data Status : Type 0 where
  ok bad_request not_found internal_server_error : Status

pub data Body : Type 0 where
  string_body file_body : Bytes → Body
  empty_body : Body

-- How the length of the body is announced: by `content_length(n)`, or by `prepare_payload()`.
pub data Framing : Type 0 where
  content_length : ℕ → Framing
  prepare_payload : Framing

pub record Response : Type 0 where
  pub status : Status
  pub version : ℕ
  pub server : Bytes
  pub content_type : Bytes
  pub keep_alive : Bool
  pub framing : Framing
  pub body : Body

-- `open_file` opens a file for reading: the error code, and the contents if it is not set.
pub record Platform : Type 0 where
  pub iequals : Bytes → Bytes → Bool
  pub open_file : Bytes → ErrorCode × Bytes
  pub message : ErrorCode → Bytes

abbrev pub is_get : Verb → Bool
is_get get = true
is_get _ = false

abbrev pub is_head : Verb → Bool
is_head head = true
is_head _ = false

abbrev pub is_no_such_file : ErrorCode → Bool
is_no_such_file ErrorCode.no_such_file_or_directory = true
is_no_such_file _ = false

-- The three error responses: HTML text with the given body.
error_response : Status → Request → Settings → Bytes → Response
error_response status req s text = record {
  status = status;
  version = req.version;
  server = s.service_version;
  content_type = codes "text/html";
  keep_alive = req.keep_alive;
  framing = prepare_payload;
  body = string_body text;
}

bad_request_response : Request → Settings → Bytes → Response
unfolding error_response
bad_request_response req s why = error_response bad_request req s why

not_found_response : Request → Settings → Bytes → Response
unfolding error_response
not_found_response req s target =
    error_response not_found req s (codes "The resource '" ++ (target ++ codes "' was not found."))

server_error_response : Request → Settings → Bytes → Response
unfolding error_response
server_error_response req s what =
    error_response internal_server_error req s (codes "An error occurred: '" ++ (what ++ codes "'"))

-- `target().find("..") != npos`.
abbrev pub is_found : Option ℕ → Bool
is_found none = false
is_found (some i) = true

-- A request path must be absolute and not contain "..".
pub is_illegal : Bytes → Bool
is_illegal target =
    is_empty target
    || not (elim (front? target) [ some c ↦ c == b'/' | none ↦ false ])
    || is_found (find target (codes ".."))

-- The path to the requested file.
pub served_path : Bytes → Bytes → Bytes
served_path doc_root target =
    let path = path_cat doc_root target in
    if ends_with target b'/' then path ++ codes "index.html" else path

-- The response that a file gives: with its contents, or for a HEAD request with none.
file_response : Platform → Request → Settings → Bytes → Bytes → Body → Response
file_response p req s path contents body = record {
  status = ok;
  version = req.version;
  server = s.service_version;
  content_type = mime_type p.iequals path;
  keep_alive = req.keep_alive;
  framing = content_length (length contents);
  body = body;
}

-- A registered handler answers on `send` or not, and returns whether it has handled the request, of
-- which it has a reference.
abbrev pub HandlerFunction {ℓ} : Type ℓ → Type ℓ
HandlerFunction S = Request → (Response → S → S) → Settings → S → (S × Request) × Bool

-- The loop over the registered handlers, up to the first that has handled the request.
run_handlers {ℓ} :
    {S : Type ℓ}
    → List (HandlerFunction S)
    → Request
    → (Response → S → S)
    → Settings
    → S
    → (S × Request) × Bool
run_handlers [] req send s st = ((st, req), false)
run_handlers (h ∷ hs) req send s st =
    let ((st', req'), handled) = h req send s st in
    let rest = run_handlers hs req' send s st' in if handled then ((st', req'), true) else rest

module _ {ℓ} {S : Type ℓ} (p : Platform) where
  -- The response for a request, handed to `send`, which changes the state of its owner.
  unfoldable pub default_handle_request : Bytes → Request → (Response → S → S) → Settings → S → S
  unfolding bad_request_response not_found_response server_error_response is_illegal served_path
      file_response
  default_handle_request doc_root req send s st =
      if not (is_get req.method) && not (is_head req.method)
      then send (bad_request_response req s (codes "Unknown HTTP-method")) st
      else if is_illegal req.target
      then send (bad_request_response req s (codes "Illegal request-target")) st
      else let path = served_path doc_root req.target in
        let (ec, contents) = p.open_file (c_str path) in
        if is_no_such_file ec
        then send (not_found_response req s req.target) st
        else if is_error ec
        then send (server_error_response req s (p.message ec)) st
        else if is_head req.method
        then send (file_response p req s path contents empty_body) st
        else send (file_response p req s path contents (file_body contents)) st

  unfoldable pub handle_request :
      List (HandlerFunction S) → Bytes → Request → (Response → S → S) → Settings → S → S
  unfolding run_handlers
  handle_request handlers doc_root req send s st =
      if is_empty handlers
      then (let ((st', req'), handled) = run_handlers handlers req send s st in
          if not handled then default_handle_request s.document_root req' send s st' else st')
      else default_handle_request s.document_root req send s st
