-- ===== src/Session/Tests.antt =====
-- Schedules of a session of src/c++/systemicai/http/server/sessions.hpp, and the theorems about them
-- at concrete inputs.
use advanced_flex_server.Common.{
  run_all, ◌++◌, ◌+◌, true, false, List, [], ◌∷◌, Option, none, some, length, ◌<◌, ◌≤◌, ◌≡◌, ◌≢◌,
  ◌⊎◌, inl, refl, codes, find, map, starts_with, eq_bytes, c_str, rfind,
}
use advanced_flex_server.Errors.{success, end_of_stream, stream_truncated}
use advanced_flex_server.Functions.{path_cat, mime_type}
use advanced_flex_server.ServerSettings.Sample.{default_settings}
use advanced_flex_server.Handler.{
  Request, Response, get, head, default_handle_request, handle_request,
}
use advanced_flex_server.Handler.Answer.{answer}
use advanced_flex_server.Handler.Sample.{sample_platform, ask}
use advanced_flex_server.Session.{Context, plain, ssl, send_shutdown, queue_send}
use advanced_flex_server.Session.Wire.{
  deliver, Wire, Event, read_done, write_done, handshake_done, start, deliver, deliver_all,
}
use advanced_flex_server.Session.Flow.{IsPrefixOf}
use advanced_flex_server.Session.Schedules.{WireInv, deliver_all-Inv, deliver-ne-none}
use advanced_flex_server.Session.Pipelining.{respond, transmitted_in_order, queue_complete}
use advanced_flex_server.Session.Closing.{eof_while_writing}
use advanced_flex_server.Session.Rest.{session_ends}
use advanced_flex_server.Session.Specification.{Pipeline, capacity}
use advanced_flex_server.Session.Refinement.{Refines, deliver_all-Refines, unanswered_few}
use advanced_flex_server.Session.Drain.{all_written, drained}

abbrev context : Context
context = record {
  platform = sample_platform;
  handlers = [];
  doc_root = codes "html";
  settings = default_settings;
  need_eof = λ res. false;
}

abbrev index : Request
index = ask get (codes "/")

abbrev to_websocket : Request
to_websocket = record index { is_upgrade = true }

-- Two pipelined requests over SSL, of which the first has been answered.
abbrev pipelined : List Event
pipelined =
    handshake_done success 0
    ∷ read_done success index []
    ∷ read_done success (ask head (codes "/a")) []
    ∷ write_done success
    ∷ []

opened : Unit {0}
unfolding answer find starts_with eq_bytes c_str rfind path_cat mime_type deliver run_all start
    handle_request default_handle_request queue_send
opened = tt

abbrev or_start : Option Wire → Wire
or_start none = start plain []
or_start (some w) = w

after_pipelined : Wire
unfolding opened
after_pipelined = or_start (deliver_all context pipelined (start ssl []))

pipelined_lem : deliver_all context pipelined (start ssl []) ≡ some after_pipelined
unfolding opened after_pipelined
pipelined_lem = refl

deliver_all-Inv_example : WireInv after_pipelined
deliver_all-Inv_example = deliver_all-Inv context pipelined ssl [] after_pipelined pipelined_lem

writing : after_pipelined.session.writes ≢ []
unfolding opened after_pipelined
writing e = cc

deliver-ne-none_example : deliver context (write_done stream_truncated) after_pipelined ≢ none
deliver-ne-none_example =
    deliver-ne-none context pipelined ssl [] after_pipelined stream_truncated pipelined_lem writing

transmitted_in_order_example :
    IsPrefixOf after_pipelined.transmitted (map (respond context) after_pipelined.requests)
transmitted_in_order_example =
    transmitted_in_order context pipelined ssl [] after_pipelined pipelined_lem

drained_example :
    (w : Wire) × (deliver_all context (all_written after_pipelined.session.items) after_pipelined
      ≡ some w)
    × (map (respond context) after_pipelined.requests ≡ map some w.transmitted)
    × ((after_pipelined.read_over ≡ true) ⊎ (w.session.reads + w.session.handshakes ≡ 1))
unfolding opened after_pipelined
drained_example =
    drained context pipelined ssl [] after_pipelined pipelined_lem (inl writing) (refl, tt)

upgraded : Wire
unfolding opened
upgraded = or_start (deliver context (read_done success to_websocket []) (start plain []))

answering : Wire
unfolding opened
answering = or_start (deliver context (read_done success index []) (start plain []))

moved_away : Wire
unfolding opened answering
moved_away = or_start (deliver context (read_done success to_websocket []) answering)

half_closed : Wire
unfolding opened answering
half_closed = or_start (deliver context (read_done end_of_stream index []) answering)

eof_while_writing_example :
    (half_closed.session.stream ≡ send_shutdown)
    × (half_closed.session.writes ≡ answering.session.writes)
    × (half_closed.session.writes ≢ [])
    × (length half_closed.transmitted < length half_closed.requests)
unfolding opened answering half_closed
eof_while_writing_example =
    eof_while_writing context (read_done success index [] ∷ []) [] [] answering half_closed index
      refl refl (λ e. cc)

abbrev read_to_end : List Event
read_to_end = read_done success index [] ∷ read_done end_of_stream index [] ∷ []

at_rest : Wire
unfolding opened half_closed answering
at_rest = or_start (deliver context (write_done success) half_closed)

session_ends_example : (1 ≤ 9) × (at_rest.session.reads + at_rest.session.handshakes ≡ 0)
unfolding opened answering half_closed at_rest
session_ends_example =
    session_ends context read_to_end (write_done success ∷ []) plain [] half_closed at_rest refl
      refl refl

deliver_all-Refines_example : Refines context after_pipelined
deliver_all-Refines_example =
    deliver_all-Refines context pipelined ssl [] after_pipelined pipelined_lem

-- What the session shows, and the next response that is delivered.
shown : Pipeline
unfolding opened after_pipelined
shown = record {
  accepted = after_pipelined.requests;
  pending = after_pipelined.session.items;
  delivered = after_pipelined.transmitted;
  accepting = true;
  writing = true;
}

unanswered_few_example :
    (unanswered : List Response) × (map (respond context) after_pipelined.requests
      ≡ map some (after_pipelined.transmitted ++ unanswered))
    × (length unanswered ≤ capacity)
unanswered_few_example = unanswered_few context pipelined ssl [] after_pipelined pipelined_lem

after_pipelined_writes :
    (after_pipelined.session.writes ≢ []) ⊎ (after_pipelined.session.items ≡ [])
unfolding opened after_pipelined
after_pipelined_writes = inl (λ e. cc)

queue_complete_example :
    map (respond context) after_pipelined.requests
    ≡ map some (after_pipelined.transmitted ++ after_pipelined.session.items)
queue_complete_example =
    queue_complete context pipelined ssl [] after_pipelined pipelined_lem after_pipelined_writes
