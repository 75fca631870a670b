-- ===== src/Listener/Construction.antt =====
-- How the constructor of the listener (src/c++/systemicai/http/server/server.cpp) sets its acceptor up.
use advanced_flex_server.Common.{
  String, List, [], ◌∷◌, Bytes, if◌then◌else◌, ◌≡◌, refl, Bool-cases, inl, inr,
}
use advanced_flex_server.Errors.{ErrorCode, is_error, Log, fail}
use advanced_flex_server.ServerSettings.{Settings}
use advanced_flex_server.Listener.{
  Endpoint, AcceptorCall, opens, reuses_address, binds, listens, attempt, new_listener,
}

-- The steps, in their order, with their names in the log.
abbrev pub setup : Endpoint → List (AcceptorCall × String)
setup e =
    (opens e, "open")
    ∷ (reuses_address, "set_option")
    ∷ (binds e, "bind")
    ∷ (listens, "listen")
    ∷ []

-- The calls of the steps up to the first that reports an error, with it.
unfoldable pub made : (AcceptorCall → ErrorCode) → List (AcceptorCall × String) → List AcceptorCall
made reported [] = []
made reported ((call, what) ∷ rest) =
    call ∷ (let next = made reported rest in if is_error (reported call) then [] else next)

-- The failure of the first step that reports an error.
unfoldable pub complaint : (AcceptorCall → ErrorCode) → List (AcceptorCall × String) → Log
complaint reported [] = []
complaint reported ((call, what) ∷ rest) =
    let next = complaint reported rest in
    if is_error (reported call) then fail (reported call) what [] else next

-- The constructor makes the calls open, set_option, bind and listen in this order, up to the first
-- that reports an error; it logs that error under the name of the step, and nothing else. It starts
-- no accept.
pub new_listener-setup :
    (reported : AcceptorCall → ErrorCode) (e : Endpoint) (doc_root : Bytes) (s : Settings)
    → new_listener reported e doc_root s ≡ record {
      doc_root = doc_root;
      settings = s;
      calls = made reported (setup e);
      accepts = 0;
      detectors = [];
      log = complaint reported (setup e);
    }
unfolding new_listener attempt made complaint
new_listener-setup reported e doc_root s = elim (Bool-cases (is_error (reported (opens e)))) [
  | inl bad ↦ rw bad refl
  | inr ok ↦ elim (Bool-cases (is_error (reported reuses_address))) [
    | inl bad2 ↦ rw (ok, bad2) refl
    | inr ok2 ↦ elim (Bool-cases (is_error (reported (binds e)))) [
      | inl bad3 ↦ rw (ok, ok2, bad3) refl
      | inr ok3 ↦ elim (Bool-cases (is_error (reported listens))) [
        | inl bad4 ↦ rw (ok, ok2, ok3, bad4) refl
        | inr ok4 ↦ rw (ok, ok2, ok3, ok4) refl
      ]
    ]
  ]
]
