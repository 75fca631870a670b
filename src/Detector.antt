-- ===== src/Detector.antt =====
-- The detector of SSL (src/c++/systemicai/http/server/server.cpp, `detect_session`). The dispatched
-- calls of `on_run` and the outstanding detections are part of its state.
pub mod Schedules
use advanced_flex_server.Common.{
  ℕ, ◌+◌, Bool, List, [], ◌∷◌, ◌++◌, Option, none, some, Bytes, if◌then◌else◌,
}
use advanced_flex_server.Errors.{ErrorCode, is_error, Log, fail}
use advanced_flex_server.ServerSettings.{Settings}
use advanced_flex_server.Session.{Session, Kind, plain, ssl, new_session, run as run_session}

-- A session that the detector has launched, and what the session was given: the document root, which is
-- shared, and a reference to the settings of the detector, here with what these are at the launch.
pub record Launch : Type 0 where
  pub session : Session
  pub doc_root : Bytes
  pub settings : Settings

-- `detect_session`, with the operations that hold it (`runs`, `detects`), the sessions it has made
-- and the error stream.
pub record Detector : Type 0 where
  pub doc_root : Bytes
  pub settings : Settings
  pub buffer : Bytes
  pub timeout : Option ℕ
  pub runs : ℕ
  pub detects : ℕ
  pub launched : List Launch
  pub log : Log

unfoldable pub new_detector : Bytes → Settings → Detector
new_detector doc_root s = record {
  doc_root = doc_root;
  settings = s;
  buffer = [];
  timeout = none;
  runs = 0;
  detects = 0;
  launched = [];
  log = [];
}

-- A dispatch of `on_run`.
unfoldable pub run : Detector → Detector
run d = record d { runs = d.runs + 1 }

unfoldable pub on_run : Detector → Detector
on_run d = record d { timeout = some 30; detects = d.detects + 1 }

-- A session of this kind is made from the stream and the buffer, and run.
unfoldable pub launch : Kind → Detector → Detector
unfolding run_session new_session
launch kind d = record d {
  launched =
      d.launched
      ++ record {
        session = run_session (new_session kind d.buffer);
        doc_root = d.doc_root;
        settings = d.settings;
      }
        ∷ [];
}

-- The completion of `async_detect_ssl`, with what it has found.
unfoldable pub on_detect : ErrorCode → Bool → Detector → Detector
unfolding launch fail
on_detect ec result d =
    if is_error ec
    then record d { log = fail ec "detect" d.log }
    else if result
    then launch ssl d
    else launch plain d
