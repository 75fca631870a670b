-- ===== src/Handler/Tests.antt =====
-- Runs of the handlers of src/c++/systemicai/http/server/handlers/handler.hpp, and the theorems about
-- them at concrete inputs.
use mathlib.Core.Option
use advanced_flex_server.Common.{
  true, false, List, [], ◌∷◌, ◌++◌, none, some, ◌≡◌, ◌≢◌, ◌↔◌, ◌⊎◌, refl, arith, Bytes, codes, find,
  starts_with, eq_bytes, c_str, front?, rfind, Bool-cases, inl, inr, eq_bytes_iff, if◌then◌else◌,
}
use advanced_flex_server.Errors.{ErrorCode, is_error, success}
use advanced_flex_server.ServerSettings.Sample.{default_settings}
use advanced_flex_server.Functions.{path_cat, mime_type}
use advanced_flex_server.Functions.Resolve.{resolve}
use advanced_flex_server.Handler.{
  get, head, Request, Response, ok, bad_request, not_found, content_length, prepare_payload,
  file_body, string_body, default_handle_request, handle_request, served_path,
}
use advanced_flex_server.Handler.Sample.{sample_platform, one_file, ask}
use advanced_flex_server.Handler.Answer.{
  answer, without_file, answer_framing, Framed, answer-ok_iff, answer-bad_request_iff, answer_head,
}
use advanced_flex_server.Handler.Containment.{answer_contained}
use advanced_flex_server.Handler.Registry.{handle_request-default}

abbrev index : Request
index = ask get (codes "/")

abbrev index_response : Response
index_response = record {
  status = ok;
  version = 11;
  server = codes "alpha";
  content_type = codes "text/html";
  keep_alive = true;
  framing = content_length 5;
  body = file_body (codes "hello");
}

abbrev missing_response : Response
missing_response = record {
  status = not_found;
  version = 11;
  server = codes "alpha";
  content_type = codes "text/html";
  keep_alive = true;
  framing = prepare_payload;
  body = string_body (codes "The resource '/a' was not found.");
}

opened : Unit {0}
unfolding answer find starts_with eq_bytes c_str rfind path_cat mime_type
opened = tt

answer-index : answer sample_platform (codes "html") index default_settings ≡ some index_response
unfolding opened
answer-index = refl

answer_missing :
    answer sample_platform (codes "html") (ask head (codes "/a")) default_settings
    ≡ some missing_response
unfolding opened
answer_missing = refl

answer_framing_example :
    (index_response.version ≡ index.version)
    × (index_response.keep_alive ≡ index.keep_alive)
    × (index_response.server ≡ default_settings.service_version)
    × Framed sample_platform (codes "html") index default_settings index_response
answer_framing_example =
    answer_framing sample_platform (codes "html") index default_settings index_response answer-index

answer-ok_iff_example : (index_response.status ≡ ok) ↔ (
    ((index.method ≡ get) ⊎ (index.method ≡ head))
    × (front? index.target ≡ some b'/')
    × (find index.target (codes "..") ≡ none)
    × (is_error (sample_platform.open_file (c_str (served_path (codes "html") index.target))).0
        ≡ false))
answer-ok_iff_example =
    answer-ok_iff sample_platform (codes "html") index default_settings index_response answer-index

answer-bad_request_iff_example : (index_response.status ≡ bad_request) ↔ (
    ((index.method ≢ get) × (index.method ≢ head))
    ⊎ (front? index.target ≢ some b'/')
    ⊎ (find index.target (codes "..") ≢ none))
answer-bad_request_iff_example =
    answer-bad_request_iff sample_platform (codes "html") index default_settings index_response
      answer-index

answer_head_example :
    answer sample_platform (codes "html") (ask head (codes "/a")) default_settings
    ≡ Option.map without_file
        (answer sample_platform (codes "html") (ask get (codes "/a")) default_settings)
answer_head_example =
    answer_head sample_platform (codes "html") (ask get (codes "/a")) default_settings

-- Another file system, with one more file, outside of the root.
abbrev with_passwd : Bytes → ErrorCode × Bytes
with_passwd path =
    if eq_bytes path (codes "/etc/passwd") then (success, codes "secret") else one_file path

outside : (inner : List Bytes) → codes "passwd" ∷ codes "etc" ∷ [] ≢ inner ++ codes "html" ∷ []
outside [] e = cc
outside (x ∷ []) e = cc
outside (x ∷ y ∷ []) e = cc
outside (x ∷ y ∷ z ∷ zs) e = cc

agree :
    (path : Bytes) (inner : List Bytes)
    → resolve path ≡ inner ++ resolve (codes "html")
    → one_file path ≡ with_passwd path
unfolding resolve
agree path inner e = elim (Bool-cases (eq_bytes path (codes "/etc/passwd"))) [
  | inl hit ↦ absurd (outside inner (rw ((eq_bytes_iff path (codes "/etc/passwd")).0 hit) at e))
  | inr miss ↦ rw miss
]

answer_contained_example :
    answer
      (record sample_platform { open_file = with_passwd })
      (codes "html")
      index
      default_settings
    ≡ answer sample_platform (codes "html") index default_settings
answer_contained_example =
    answer_contained sample_platform (codes "html") index default_settings with_passwd (omega arith)
      (omega arith) agree

handle_request-default_example :
    handle_request sample_platform
      ((λ req send s st. ((index_response ∷ st, req), true)) ∷ [])
      (codes "other")
      index
      ◌∷◌
      default_settings
      []
    ≡ default_handle_request sample_platform (codes "html") index ◌∷◌ default_settings []
handle_request-default_example =
    handle_request-default sample_platform
      ((λ req send s st. ((index_response ∷ st, req), true)) ∷ []) (codes "other") index ◌∷◌
      default_settings []
