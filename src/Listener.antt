-- ===== src/Listener.antt =====
-- The listener (src/c++/systemicai/http/server/server.cpp and server.h). The codes that the acceptor's
-- calls report are a parameter; the outstanding accepts and the detectors are part of the state.
pub mod Construction
pub mod Events
pub mod Connections
mod Tests
use advanced_flex_server.Common.{ℕ, ◌+◌, String, List, [], ◌∷◌, ◌++◌, Bytes, if◌then◌else◌}
use advanced_flex_server.Errors.{ErrorCode, is_error, Log, fail}
use advanced_flex_server.ServerSettings.{Settings}
use advanced_flex_server.Detector.{Detector, new_detector, run as run_detector}

-- The bytes of an address, and a port.
pub record Endpoint : Type 0 where
  pub address : Bytes
  pub port : ℕ

-- The calls that set the acceptor up; it is opened for the protocol of the endpoint.
pub data AcceptorCall : Type 0 where
  opens : Endpoint → AcceptorCall
  reuses_address : AcceptorCall
  binds : Endpoint → AcceptorCall
  listens : AcceptorCall

pub record Listener : Type 0 where
  pub doc_root : Bytes
  pub settings : Settings
  pub calls : List AcceptorCall
  pub accepts : ℕ
  pub detectors : List Detector
  pub log : Log

-- A call on the acceptor; `next` is what follows if it reports no error.
unfoldable pub attempt :
    (AcceptorCall → ErrorCode) → AcceptorCall → String → (Listener → Listener) → Listener → Listener
unfolding fail
attempt reported call what next l =
    let called = record l { calls = l.calls ++ call ∷ [] } in
    if is_error (reported call)
    then record called { log = fail (reported call) what l.log }
    else next called

-- The constructor.
unfoldable pub new_listener : (AcceptorCall → ErrorCode) → Endpoint → Bytes → Settings → Listener
unfolding attempt
new_listener reported endpoint doc_root s =
    attempt reported (opens endpoint) "open"
      (attempt reported reuses_address "set_option"
        (attempt reported (binds endpoint) "bind" (attempt reported listens "listen" (λ l. l))))
      (record {
        doc_root = doc_root;
        settings = s;
        calls = [];
        accepts = 0;
        detectors = [];
        log = [];
      })

unfoldable pub do_accept : Listener → Listener
do_accept l = record l { accepts = l.accepts + 1 }

unfoldable pub run : Listener → Listener
unfolding do_accept
run l = do_accept l

-- The completion of `async_accept`.
unfoldable pub on_accept : ErrorCode → Listener → Listener
unfolding do_accept run_detector new_detector fail
on_accept ec l = do_accept (
    if is_error ec then record l { log = fail ec "accept" l.log } else record l {
      detectors = l.detectors ++ run_detector (new_detector l.doc_root l.settings) ∷ [];
    })
