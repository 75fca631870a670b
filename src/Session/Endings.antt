-- ===== src/Session/Endings.antt =====
-- A session of src/c++/systemicai/http/server/sessions.hpp whose response ends the connection.
use advanced_flex_server.Common.{
  run_all, true, false, List, [], ◌∷◌, Option, none, some, ◌≡◌, refl, codes, find, starts_with,
  eq_bytes, c_str, rfind,
}
use advanced_flex_server.Errors.{success}
use advanced_flex_server.Functions.{path_cat, mime_type}
use advanced_flex_server.ServerSettings.Sample.{default_settings}
use advanced_flex_server.Handler.{
  Response, ok, content_length, empty_body, get, head, default_handle_request, handle_request,
}
use advanced_flex_server.Handler.Answer.{answer}
use advanced_flex_server.Handler.Sample.{sample_platform, ask}
use advanced_flex_server.Session.{Context, plain, queue_send}
use advanced_flex_server.Session.Wire.{
  Wire, Event, read_done, write_done, start, deliver, deliver_all,
}
use advanced_flex_server.Session.LastResponse.{close_is_last}

-- Each response ends its connection.
abbrev closing : Context
closing = record {
  platform = sample_platform;
  handlers = [];
  doc_root = codes "html";
  settings = default_settings;
  need_eof = λ res. true;
}

-- Two pipelined requests, and the write of the first response.
abbrev two_requests : List Event
two_requests =
    read_done success (ask get (codes "/")) []
    ∷ read_done success (ask head (codes "/")) []
    ∷ write_done success
    ∷ []

opened : Unit {0}
unfolding answer find starts_with eq_bytes c_str rfind path_cat mime_type deliver run_all start
    handle_request default_handle_request queue_send
opened = tt

abbrev or_start : Option Wire → Wire
or_start none = start plain []
or_start (some w) = w

closed : Wire
unfolding opened
closed = or_start (deliver_all closing two_requests (start plain []))

closed_lem : deliver_all closing two_requests (start plain []) ≡ some closed
unfolding opened closed
closed_lem = refl

abbrev or_empty : List Response → Response
or_empty [] = record {
  status = ok;
  version = 11;
  server = [];
  content_type = [];
  keep_alive = false;
  framing = content_length 0;
  body = empty_body;
}
or_empty (res ∷ rest) = res

first_sent : closed.transmitted ≡ or_empty closed.transmitted ∷ []
unfolding opened closed
first_sent = refl

close_is_last_example : ◌≡◌ {A = List Response} [] []
close_is_last_example =
    close_is_last closing two_requests plain [] closed [] [] (or_empty closed.transmitted)
      closed_lem first_sent refl
