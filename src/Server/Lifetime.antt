-- ===== src/Server/Lifetime.antt =====
-- The settings that the sessions of src/c++/systemicai/http/server/server.cpp refer to: those of their
-- detector (`settings_`), which lives as long as an operation of the detector holds it.
use advanced_flex_server.Common.{
  List, [], Option, none, some, ◌≡◌, refl, Bytes, inl, inr, arith, run_all, run_all-keeps,
  some-injective, Option-cases, ap,
}
use advanced_flex_server.Errors.{ErrorCode}
use advanced_flex_server.ServerSettings.{Settings}
use advanced_flex_server.Listener.{AcceptorCall, Endpoint}
use advanced_flex_server.Listener.Events.{ListenerEvent, complete as complete_listener}
use advanced_flex_server.Listener.Construction.{new_listener-setup}
use advanced_flex_server.Server.{
  Shared, Link, Server, ServerEvent, listening, http_done, websocket_done, refresh, step_at,
  http_step, websocket_step, listener_step, links_step, serve_step, serve_all, open_server,
}
use advanced_flex_server.Server.Sessions.{ServerRan, serve_all-ServerRan, serve_step-ServerRan}
use advanced_flex_server.Server.Outlived.{
  All-Done, refresh-Outlived, complete-Pending, http_step-Outlived, websocket_step-Outlived,
  step_at-Outlived, AllOutlived,
}

module _ (sh : Shared) (doc_root : Bytes) (s : Settings) where
  abbrev ServerOutlived : Server → Type 0
  ServerOutlived sv = ServerRan sh doc_root s sv × AllOutlived sv.listener.detectors sv.links

  listener_step-Outlived :
      (e : ListenerEvent) (sv sv' : Server)
      → ServerRan sh doc_root s sv'
      → AllOutlived sv.listener.detectors sv.links
      → listener_step e sv ≡ some sv'
      → AllOutlived sv'.listener.detectors sv'.links
  unfolding listener_step
  listener_step-Outlived e sv sv' ran v h = elim (Option-cases (complete_listener e sv.listener)) [
    | inl missing ↦ ground (arith, missing)
    | inr (l, found) ↦
        let next : Server = record { listener = l; links = refresh l.detectors sv.links } in
        let same : next ≡ sv' = some-injective _ _ (rw (found, listener_step) at h) in
        let ds = ap (λ (x : Server). x.listener.detectors) same in
        let done = All-Done doc_root s sv'.listener.detectors ran.0.2.ran in
        rw (← same) (
          refresh-Outlived l.detectors sv.links (rw (← ds) at done)
            (complete-Pending e sv.listener l sv.links found v))
  ]

  links_step-Outlived :
      (links : Option (List Link)) (sv sv' : Server)
      → ((stepped : List Link) → links ≡ some stepped → AllOutlived sv.listener.detectors stepped)
      → links_step links sv ≡ some sv'
      → AllOutlived sv'.listener.detectors sv'.links
  unfolding links_step
  links_step-Outlived none sv sv' keep h = cc
  links_step-Outlived (some stepped) sv sv' keep h =
      let same : (record sv { links = stepped }) ≡ sv' = some-injective _ _ h in
      rw (← same) (keep stepped refl)

  serve_step-Outlived :
      (e : ServerEvent) (sv sv' : Server)
      → ServerOutlived sv
      → serve_step sh e sv ≡ some sv'
      → ServerOutlived sv'
  unfolding serve_step
  serve_step-Outlived (listening e) sv sv' v h =
      let ran = serve_step-ServerRan sh doc_root s (listening e) sv sv' v.0 h in
      (ran, listener_step-Outlived e sv sv' ran v.1 h)
  serve_step-Outlived (http_done i e) sv sv' v h = (
    serve_step-ServerRan sh doc_root s (http_done i e) sv sv' v.0 h,
    links_step-Outlived (step_at (http_step sh e) i sv.links) sv sv'
        (λ stepped.
          step_at-Outlived (http_step sh e) (http_step-Outlived sh e) i sv.listener.detectors
            sv.links stepped v.1)
        h,
  )
  serve_step-Outlived (websocket_done i e) sv sv' v h = (
    serve_step-ServerRan sh doc_root s (websocket_done i e) sv sv' v.0 h,
    links_step-Outlived (step_at (websocket_step e) i sv.links) sv sv'
        (λ stepped.
          step_at-Outlived (websocket_step e) (websocket_step-Outlived e) i sv.listener.detectors
            sv.links stepped v.1)
        h,
  )

  nothing :
      (reported : AcceptorCall → ErrorCode) (endpoint : Endpoint)
      → AllOutlived
          (open_server reported endpoint doc_root s).listener.detectors
          (open_server reported endpoint doc_root s).links
  unfolding open_server
  nothing reported endpoint = rw (new_listener-setup reported endpoint doc_root s) tt

  -- No session is backed by the detector whose settings it refers to: after any schedule of the
  -- server, on each connection there is no HTTP session, or no operation holds the detector any more.
  pub serve_all-Outlived :
      (reported : AcceptorCall → ErrorCode) (endpoint : Endpoint) (es : List ServerEvent)
      (sv : Server)
      → serve_all sh es (open_server reported endpoint doc_root s) ≡ some sv
      → AllOutlived sv.listener.detectors sv.links
  unfolding run_all
  serve_all-Outlived reported endpoint es sv h =
      (run_all-keeps (serve_step sh) ServerOutlived serve_step-Outlived es
        (open_server reported endpoint doc_root s) sv
        (serve_all-ServerRan sh doc_root s reported endpoint [] _ refl, nothing reported endpoint)
        h).1
