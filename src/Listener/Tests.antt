-- ===== src/Listener/Tests.antt =====
-- The listener and the detector of src/c++/systemicai/http/server/server.cpp at concrete inputs.
use advanced_flex_server.Common.{
  run_all, true, List, [], ◌∷◌, Option, none, some, ◌≡◌, refl, Bytes, codes, length, All,
}
use advanced_flex_server.Errors.{ErrorCode, success, other}
use advanced_flex_server.ServerSettings.Sample.{default_settings}
use advanced_flex_server.Detector.{
  Detector, new_detector, run as run_detector, on_run, on_detect, launch,
}
use advanced_flex_server.Detector.Schedules.{
  DetectorEvent, dispatched, detected, step, steps, Course, call_on_run, call_on_detect,
  steps-Course,
}
use advanced_flex_server.Listener.{
  Listener, Endpoint, AcceptorCall, binds, attempt, new_listener, run, do_accept, on_accept,
}
use advanced_flex_server.Listener.Construction.{made, complaint, setup, new_listener-setup}
use advanced_flex_server.Listener.Events.{
  ListenerEvent, accept_done, progress, complete_accept, progress_at, complete, complete_all,
  accepted, refused,
}
use advanced_flex_server.Listener.Connections.{complete_all-accepted}

abbrev root : Bytes
root = codes "html"

abbrev here : Endpoint
here = record { address = 127 ∷ 0 ∷ 0 ∷ 1 ∷ []; port = 8080 }

-- The port is taken.
abbrev taken : AcceptorCall → ErrorCode
taken (binds e) = other 98
taken call = success

new_listener-setup_example : new_listener taken here root default_settings ≡ record {
  doc_root = root;
  settings = default_settings;
  calls = made taken (setup here);
  accepts = 0;
  detectors = [];
  log = complaint taken (setup here);
}
new_listener-setup_example = new_listener-setup taken here root default_settings

-- A connection over SSL.
abbrev hello : List DetectorEvent
hello = dispatched ∷ detected success true (22 ∷ []) ∷ []

abbrev or_new : Option Detector → Detector
or_new none = new_detector [] default_settings
or_new (some d) = d

after_hello : Detector
unfolding run_all step call_on_run call_on_detect run_detector new_detector on_run on_detect launch
after_hello = or_new (steps hello (run_detector (new_detector root default_settings)))

hello_lem : steps hello (run_detector (new_detector root default_settings)) ≡ some after_hello
unfolding after_hello
hello_lem = refl

steps-Course_example : Course root default_settings hello after_hello
steps-Course_example = steps-Course root default_settings hello after_hello hello_lem

-- One accept fails, two succeed, and the second connection is detected.
abbrev visits : List ListenerEvent
visits =
    accept_done (other 24)
    ∷ accept_done success
    ∷ accept_done success
    ∷ progress 1 dispatched
    ∷ progress 1 (detected success true (22 ∷ []))
    ∷ []

abbrev or_built : Option Listener → Listener
or_built none = new_listener taken here root default_settings
or_built (some l) = l

after_visits : Listener
unfolding run_all complete complete_accept progress_at new_listener attempt run do_accept on_accept
after_visits = or_built (complete_all visits (run (new_listener taken here root default_settings)))

visits_lem :
    complete_all visits (run (new_listener taken here root default_settings)) ≡ some after_visits
unfolding after_visits
visits_lem = refl

complete_all-accepted_example :
    (after_visits.accepts ≡ 1)
    × (length after_visits.detectors ≡ accepted visits)
    × (after_visits.log ≡ refused visits (new_listener taken here root default_settings).log)
    × All
        (λ d. (seen : List DetectorEvent) × Course root default_settings seen d)
        after_visits.detectors
complete_all-accepted_example =
    complete_all-accepted taken here root default_settings visits after_visits visits_lem
