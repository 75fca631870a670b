-- ===== src/Listener/Events.antt =====
-- The completions of a listener of src/c++/systemicai/http/server/server.cpp and of the detectors of its
-- connections.
use advanced_flex_server.Common.{
  run_all, ℕ, ◌+◌, List, [], ◌∷◌, Option, none, some, Bytes, if◌then◌else◌, zero, suc, ◌≡◌, length,
  All,
}
use advanced_flex_server.Errors.{ErrorCode, is_error, fail, Log}
use advanced_flex_server.ServerSettings.{Settings}
use advanced_flex_server.Detector.{Detector, new_detector, run as run_detector}
use advanced_flex_server.Detector.Schedules.{DetectorEvent, step, steps}
use advanced_flex_server.Listener.{Listener, on_accept}

-- `progress i e`: a completion of the detector of connection `i`, counted from 0.
pub data ListenerEvent : Type 0 where
  accept_done : ErrorCode → ListenerEvent
  progress : ℕ → DetectorEvent → ListenerEvent

unfoldable pub complete_accept : ℕ → ErrorCode → Listener → Option Listener
unfolding on_accept
complete_accept zero ec l = none
complete_accept (suc n) ec l = some (on_accept ec (record l { accepts = n }))

unfoldable pub progress_at : ℕ → DetectorEvent → List Detector → Option (List Detector)
unfolding step
progress_at i e [] = none
progress_at zero e (d ∷ ds) = elim (step e d) [ none ↦ none | some d' ↦ some (d' ∷ ds) ]
progress_at (suc i) e (d ∷ ds) = elim (progress_at i e ds) [
  | none ↦ none
  | some ds' ↦ some (d ∷ ds')
]

unfoldable pub complete : ListenerEvent → Listener → Option Listener
unfolding complete_accept progress_at
complete (accept_done ec) l = complete_accept l.accepts ec l
complete (progress i e) l = elim (progress_at i e l.detectors) [
  | none ↦ none
  | some ds ↦ some (record l { detectors = ds })
]

abbrev pub complete_all : List ListenerEvent → Listener → Option Listener
complete_all es l = run_all complete es l

-- The accepts of a schedule that succeeded, and the lines that the others are logged with.
unfoldable pub accepted : List ListenerEvent → ℕ
accepted [] = 0
accepted (accept_done ec ∷ es) = (if is_error ec then 0 else 1) + accepted es
accepted (progress i e ∷ es) = accepted es

unfoldable pub refused : List ListenerEvent → Log → Log
refused [] log = log
refused (accept_done ec ∷ es) log = refused es (if is_error ec then fail ec "accept" log else log)
refused (progress i e ∷ es) log = refused es log

-- A detector of this listener that has come to where it is by some completions.
abbrev pub Ran : Bytes → Settings → Detector → Type 0
Ran doc_root s d =
    (es : List DetectorEvent) × (steps es (run_detector (new_detector doc_root s)) ≡ some d)

pub record Serves (doc_root : Bytes) (s : Settings) (count : ℕ) (log : Log) (l : Listener)
    : Type 0 where
  pub root : l.doc_root ≡ doc_root
  pub kept : l.settings ≡ s
  pub accepting : l.accepts ≡ 1
  pub connections : length l.detectors ≡ count
  pub logged : l.log ≡ log
  pub ran : All (Ran doc_root s) l.detectors
