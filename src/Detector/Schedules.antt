-- ===== src/Detector/Schedules.antt =====
-- What a detector of src/c++/systemicai/http/server/server.cpp has done after any completions of its
-- operations.
use advanced_flex_server.Common.{
  run_all, ℕ, ◌+◌, Bool, true, false, List, [], ◌∷◌, ◌++◌, Option, none, some, Bytes, if◌then◌else◌,
  zero, suc, ◌≡◌, refl, sym, ◌∙◌, append-nil, ◌⊎◌, inl, inr, arith, Bool-cases,
}
use advanced_flex_server.Errors.{ErrorCode, is_error, fail}
use advanced_flex_server.ServerSettings.{Settings}
use advanced_flex_server.Session.{Session, Kind, plain, ssl, new_session, run as run_session}
use advanced_flex_server.Detector.{Detector, Launch, new_detector, run, on_run, on_detect, launch}

-- `detected` has the bytes that the detection has left in the buffer.
pub data DetectorEvent : Type 0 where
  dispatched : DetectorEvent
  detected : ErrorCode → Bool → Bytes → DetectorEvent

unfoldable pub call_on_run : ℕ → Detector → Option Detector
unfolding on_run
call_on_run zero d = none
call_on_run (suc n) d = some (on_run (record d { runs = n }))

unfoldable pub call_on_detect : ℕ → ErrorCode → Bool → Bytes → Detector → Option Detector
unfolding on_detect
call_on_detect zero ec result buffer d = none
call_on_detect (suc n) ec result buffer d =
    some (on_detect ec result (record d { detects = n; buffer = buffer }))

-- One completion; `none` if no such operation is outstanding.
unfoldable pub step : DetectorEvent → Detector → Option Detector
unfolding call_on_run call_on_detect
step dispatched d = call_on_run d.runs d
step (detected ec result buffer) d = call_on_detect d.detects ec result buffer d

abbrev pub steps : List DetectorEvent → Detector → Option Detector
steps es d = run_all step es d

-- The shared pointers to the detector that its operations hold: it lives as long as there are any.
unfoldable pub owners : Detector → ℕ
owners d = d.runs + d.detects

-- How a session starts: a plain one reads, an SSL one has its handshake first.
abbrev pub started : Kind → Bytes → Session
started kind buffer = run_session (new_session kind buffer)

-- The sessions that a detection leads to.
abbrev pub launches : ErrorCode → Bool → Bytes → Bytes → Settings → List Launch
launches ec result buffer doc_root s =
    if is_error ec
    then []
    else record {
      session = started (if result then ssl else plain) buffer;
      doc_root = doc_root;
      settings = s;
    }
      ∷ []

-- What a detector that was run has done after the completions `es`.
abbrev pub Course : Bytes → Settings → List DetectorEvent → Detector → Type 0
Course doc_root s es d =
    (owners d ≡ 1) × (d.launched ≡ []) × (d.log ≡ []) × ((es ≡ []) ⊎ (es ≡ dispatched ∷ []))
    ⊎ (ec : ErrorCode) × (result : Bool) × (buffer : Bytes) × (es
        ≡ dispatched ∷ detected ec result buffer ∷ [])
      × (owners d ≡ 0)
      × (d.launched ≡ launches ec result buffer doc_root s)
      × (d.log ≡ (if is_error ec then fail ec "detect" [] else []))

on_detect-launched :
    (ec : ErrorCode) (result : Bool) (d : Detector)
    → (on_detect ec result d).launched
      ≡ d.launched ++ launches ec result d.buffer d.doc_root d.settings
unfolding on_detect launch
on_detect-launched ec true d = elim (Bool-cases (is_error ec)) [
  | inl bad ↦ rw bad (sym (append-nil d.launched))
  | inr ok ↦ rw ok refl
]
on_detect-launched ec false d = elim (Bool-cases (is_error ec)) [
  | inl bad ↦ rw bad (sym (append-nil d.launched))
  | inr ok ↦ rw ok refl
]

on_detect_lem :
    (ec : ErrorCode) (result : Bool) (d : Detector)
    → ((on_detect ec result d).runs ≡ d.runs)
      × ((on_detect ec result d).detects ≡ d.detects)
      × ((on_detect ec result d).log ≡ (if is_error ec then fail ec "detect" d.log else d.log))
unfolding on_detect launch
on_detect_lem ec result d = (ground arith, ground arith, ground arith)

spent :
    (e : DetectorEvent) (es : List DetectorEvent) (d : Detector)
    → d.runs ≡ 0
    → d.detects ≡ 0
    → steps (e ∷ es) d ≡ none
unfolding run_all step call_on_run call_on_detect
spent dispatched es d r w = rw r refl
spent (detected ec result buffer) es d r w = rw w refl

no_more : (P : Type 0) (d : Detector) → none ≡ some d → P
no_more P d h = cc

-- The detector when its detection is complete.
abbrev idle : Bytes → Settings → Bytes → Detector
idle doc_root s buffer = record (new_detector doc_root s) { timeout = some 30; buffer = buffer }

-- A detector that is run makes one detection. Until it completes nothing has been launched or
-- logged, and one operation holds the detector. Then either its error is logged, or one session is
-- launched, of the kind that was detected, on the bytes that were read, with the detector's document
-- root and settings. From then on nothing holds the detector.
pub steps-Course :
    (doc_root : Bytes) (s : Settings) (es : List DetectorEvent) (d : Detector)
    → steps es (run (new_detector doc_root s)) ≡ some d
    → Course doc_root s es d
unfolding run_all step call_on_run call_on_detect run new_detector on_run owners
steps-Course doc_root s [] d h =
    let e : run (new_detector doc_root s) ≡ d = cc in rw (← e) (inl (refl, refl, refl, inl refl))
steps-Course doc_root s (dispatched ∷ []) d h =
    let e : on_run (new_detector doc_root s) ≡ d = cc in rw (← e) (inl (refl, refl, refl, inr refl))
steps-Course doc_root s (dispatched ∷ detected ec result buffer ∷ []) d h =
    let e : on_detect ec result (idle doc_root s buffer) ≡ d = cc in
    let (r, w, logged) = on_detect_lem ec result (idle doc_root s buffer) in
    let made = on_detect-launched ec result (idle doc_root s buffer) in
    rw (← e) (inr (ec, result, buffer, refl, rw (r, w) refl, made, logged))
steps-Course doc_root s (dispatched ∷ detected ec result buffer ∷ e ∷ es) d h =
    let (r, w, _) = on_detect_lem ec result (idle doc_root s buffer) in
    let none_left = spent e es (on_detect ec result (idle doc_root s buffer)) r w in
    no_more (Course doc_root s _ d) d (sym none_left ∙ h)
steps-Course doc_root s (dispatched ∷ dispatched ∷ es) d h = cc
steps-Course doc_root s (detected ec result buffer ∷ es) d h = cc
