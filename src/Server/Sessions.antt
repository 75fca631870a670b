-- ===== src/Server/Sessions.antt =====
-- What the clients of the whole server see (src/c++/systemicai/http/server/server.cpp and sessions.hpp).
use advanced_flex_server.Common.{
  ℕ, ◌≤◌, Bool, List, [], ◌∷◌, ◌++◌, map, Option, none, some, ◌≡◌, refl, Bytes, All, Bool-cases,
  inl, inr, length, run_all-keeps, some-injective, Option-cases, arith, subst,
}
use advanced_flex_server.Errors.{ErrorCode, is_error, Log}
use advanced_flex_server.ServerSettings.{Settings}
use advanced_flex_server.Handler.{Response}
use advanced_flex_server.Handler.Answer.{answer}
use advanced_flex_server.Session.Wire.{Wire}
use advanced_flex_server.Session.Schedules.{WireInv, deliver_all-Inv}
use advanced_flex_server.Session.Refinement.{Refines, deliver_all-Refines, unanswered_few}
use advanced_flex_server.WebSocket.{Message}
use advanced_flex_server.WebSocket.Wire.{WsWire}
use advanced_flex_server.WebSocket.Echo.{echoed_in_order}
use advanced_flex_server.Detector.{Detector, Launch}
use advanced_flex_server.Detector.Schedules.{steps-Course, launches}
use advanced_flex_server.Listener.{AcceptorCall, Endpoint}
use advanced_flex_server.Listener.Events.{ListenerEvent, Serves, Ran, complete as complete_listener}
use advanced_flex_server.Listener.Connections.{complete-Serves, opened-Serves}
use advanced_flex_server.Server.{
  Shared, Link, Server, ServerEvent, listening, http_done, websocket_done, context, refresh,
  step_at, http_step, websocket_step, listener_step, links_step, serve_step, serve_all, open_server,
}
use advanced_flex_server.Server.Links.{
  LinkRan, HttpRan, WsRan, Launches, refresh-LinkRan, http_step-LinkRan, websocket_step-LinkRan,
  step_at-LinkRan,
}

module _ (sh : Shared) (doc_root : Bytes) (s : Settings) where
  launches-Launches :
      (ec : ErrorCode) (result : Bool) (buffer : Bytes)
      → Launches sh doc_root s (launches ec result buffer doc_root s)
  launches-Launches ec result buffer = elim (Bool-cases (is_error ec)) [
    | inl bad ↦ rw bad tt
    | inr ok ↦ rw ok ((refl, refl, (_, buffer, refl)), tt)
  ]

  Ran-Launches : (d : Detector) → Ran doc_root s d → Launches sh doc_root s d.launched
  Ran-Launches d (seen, came) = elim (steps-Course doc_root s seen d came) [
    | inl (_, none_yet, _, _) ↦ rw none_yet tt
    | inr (ec, result, buffer, _, _, launched, _) ↦ rw launched (launches-Launches ec result buffer)
  ]

  All-Launches :
      (ds : List Detector)
      → All (Ran doc_root s) ds
      → All (λ (d : Detector). Launches sh doc_root s d.launched) ds
  All-Launches [] v = tt
  All-Launches (d ∷ ds) (v, vs) = (Ran-Launches d v, All-Launches ds vs)

  -- The listener serves, and each session has run from its beginning.
  abbrev pub ServerRan : Server → Type 0
  ServerRan sv =
      ((count : ℕ) × (log : Log) × Serves doc_root s count log sv.listener)
      × All (LinkRan sh doc_root s) sv.links

  listener_step-ServerRan :
      (e : ListenerEvent) (sv sv' : Server)
      → ServerRan sv
      → listener_step e sv ≡ some sv'
      → ServerRan sv'
  unfolding listener_step
  listener_step-ServerRan e sv sv' ((count, log, serving), links) h =
      elim (Option-cases (complete_listener e sv.listener)) [
        | inl missing ↦ ground (arith, missing)
        | inr (l, found) ↦
            let next : Server = record { listener = l; links = refresh l.detectors sv.links } in
            let same : next ≡ sv' = some-injective _ _ (rw (found, listener_step) at h) in
            let (count', log', serving') =
              complete-Serves e doc_root s count log sv.listener l serving found in
            rw (← same) (
              (count', log', serving'),
              refresh-LinkRan sh doc_root s l.detectors sv.links
                  (All-Launches l.detectors serving'.ran) links,
            )
      ]

  links_step-ServerRan :
      (links : Option (List Link)) (sv sv' : Server)
      → ServerRan sv
      → ((stepped : List Link) → links ≡ some stepped → All (LinkRan sh doc_root s) stepped)
      → links_step links sv ≡ some sv'
      → ServerRan sv'
  unfolding links_step
  links_step-ServerRan none sv sv' v keep h = cc
  links_step-ServerRan (some stepped) sv sv' v keep h =
      let same : (record sv { links = stepped }) ≡ sv' = some-injective _ _ h in
      rw (← same) (v.0, keep stepped refl)

  pub serve_step-ServerRan :
      (e : ServerEvent) (sv sv' : Server)
      → ServerRan sv
      → serve_step sh e sv ≡ some sv'
      → ServerRan sv'
  unfolding serve_step
  serve_step-ServerRan (listening e) sv sv' v h = listener_step-ServerRan e sv sv' v h
  serve_step-ServerRan (http_done i e) sv sv' v h =
      links_step-ServerRan (step_at (http_step sh e) i sv.links) sv sv' v
        (λ stepped.
          step_at-LinkRan sh doc_root s (http_step sh e)
            (λ link link'. http_step-LinkRan sh doc_root s e link.http link link' refl) i sv.links
            stepped v.1)
        h
  serve_step-ServerRan (websocket_done i e) sv sv' v h =
      links_step-ServerRan (step_at (websocket_step e) i sv.links) sv sv' v
        (λ stepped.
          step_at-LinkRan sh doc_root s (websocket_step e)
            (λ link link'. websocket_step-LinkRan sh doc_root s e link.websocket link link' refl) i
            sv.links stepped v.1)
        h

  pub serve_all-ServerRan :
      (reported : AcceptorCall → ErrorCode) (endpoint : Endpoint) (es : List ServerEvent)
      (sv : Server)
      → serve_all sh es (open_server reported endpoint doc_root s) ≡ some sv
      → ServerRan sv
  unfolding open_server
  serve_all-ServerRan reported endpoint es sv h =
      run_all-keeps (serve_step sh) ServerRan serve_step-ServerRan es
        (open_server reported endpoint doc_root s) sv
        ((0, _, opened-Serves reported endpoint doc_root s), tt) h

  -- What a connection's HTTP session has sent, by its own requests.
  abbrev pub HttpInOrder : Option (Launch × Wire) → Type 0
  HttpInOrder none = Unit {0}
  HttpInOrder (some (launch, w)) =
      ((unanswered : List Response) × (map
            (λ req. answer sh.platform (sh.dangling s).document_root req (sh.dangling s)) w.requests
          ≡ map some (w.transmitted ++ unanswered))
        × (length unanswered ≤ 8))
      × WireInv w
      × Refines (context sh launch) w

  -- What its WebSocket session has sent back, by its own messages.
  abbrev pub WsInOrder : Option WsWire → Type 0
  WsInOrder none = Unit {0}
  WsInOrder (some v) = (rest : List Message) × (v.received ≡ v.echoed ++ rest) × (length rest ≤ 1)

  abbrev pub InOrder : Link → Type 0
  InOrder link = HttpInOrder link.http × WsInOrder link.websocket

  HttpRan-InOrder : (http : Option (Launch × Wire)) → HttpRan sh doc_root s http → HttpInOrder http
  HttpRan-InOrder none v = tt
  HttpRan-InOrder (some (launch, w)) (_, kept, (kind, buffer, es, came)) = (
    subst
        (λ (t : Settings).
          (unanswered : List Response) × (map
              (λ req. answer sh.platform (sh.dangling t).document_root req (sh.dangling t))
              w.requests
            ≡ map some (w.transmitted ++ unanswered))
          × (length unanswered ≤ 8))
        kept (unanswered_few (context sh launch) es kind buffer w came),
    deliver_all-Inv (context sh launch) es kind buffer w came,
    deliver_all-Refines (context sh launch) es kind buffer w came,
  )

  WsRan-InOrder : (ws : Option WsWire) → WsRan sh doc_root s ws → WsInOrder ws
  WsRan-InOrder none v = tt
  WsRan-InOrder (some v) (req, es, came) =
      let (rest, same, few, _) = echoed_in_order es sh.version_string req v came in
      (rest, same, few)

  pub All-InOrder : (links : List Link) → All (LinkRan sh doc_root s) links → All InOrder links
  All-InOrder [] v = tt
  All-InOrder (link ∷ links) ((http, ws), vs) =
      ((HttpRan-InOrder link.http http, WsRan-InOrder link.websocket ws), All-InOrder links vs)

  -- The whole server keeps every connection in order, whatever happens on the others: after any
  -- schedule of accepts, detections and completions, the responses that have gone over a connection
  -- are the answers to its own requests in order, but for at most 8, under what its session reads
  -- through its reference to the settings of its detector, and its session has the invariant of a session alone and refines the specification of
  -- Session/Specification; and what its WebSocket session has sent back are its own messages in
  -- order, but for at most one.
  pub serve_all-InOrder :
      (reported : AcceptorCall → ErrorCode) (endpoint : Endpoint) (es : List ServerEvent)
      (sv : Server)
      → serve_all sh es (open_server reported endpoint doc_root s) ≡ some sv
      → All InOrder sv.links
  serve_all-InOrder reported endpoint es sv h =
      All-InOrder sv.links (serve_all-ServerRan reported endpoint es sv h).1
