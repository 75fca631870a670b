-- ===== src/Program/Connections.antt =====
-- The connections of the program (src/c++/systemicai/http/server/service.hpp, server.cpp and
-- sessions.hpp), and how they go back to the settings of src/c++/systemicai/cmd/httpd.cpp.
use advanced_flex_server.Common.{
  List, [], Option, none, some, ◌≡◌, ◌⊎◌, inl, inr, refl, sym, ap, ◌∙◌, subst, arith, Bytes,
  Option-cases, Bool-cases, some-injective, run_all-keeps,
}
use advanced_flex_server.Errors.{ErrorCode}
use advanced_flex_server.ServerSettings.{Settings}
use advanced_flex_server.Listener.{Listener, AcceptorCall}
use advanced_flex_server.Service.{Service, IoContext, new_service, start}
use advanced_flex_server.Service.Steps.{ServiceEvent, step}
use advanced_flex_server.Server.{Shared, Link, Server, ServerEvent, serve_step}
use advanced_flex_server.Server.Sessions.{serve_step-ServerRan}
use advanced_flex_server.Program.{
  Program, ProgramEvent, at_service, serving, links_on, at_work, put_server, service_step,
  handler_step, context_step, program_step, program_run,
}
use advanced_flex_server.Program.Contexts.{ContextRan, ListenerRan, step-Left, start-ran}
use advanced_flex_server.PropertyTree.{PropertyTree}
use advanced_flex_server.Logging.{Logging}
use advanced_flex_server.Certificate.{SslContext, Outcome}
use advanced_flex_server.Command.{Surroundings, started, serve_with, run_main}
use advanced_flex_server.Command.Startup.{file_settings, file_certificates}

module _ (make_address : Bytes → Option Bytes) (reported : AcceptorCall → ErrorCode) (sh : Shared)
    (s : Settings) where
  -- The service has the settings, and each connection has run from its beginning.
  abbrev ProgramRan : Program → Type 0
  ProgramRan pr = (pr.service.settings ≡ s) × ContextRan sh s pr.service.ioc pr.links

  service_step-ProgramRan :
      (e : ServiceEvent) (pr pr' : Program)
      → ProgramRan pr
      → service_step make_address reported sh e pr ≡ some pr'
      → ProgramRan pr'
  unfolding service_step
  service_step-ProgramRan e pr pr' (kept, ran) h =
      elim (Option-cases (step make_address reported e pr.service)) [
        | inl missing ↦ ground (arith, missing)
        | inr (sv, found) ↦
            let next : Program = record { service = sv; links = links_on sv.ioc pr.links } in
            let same : next ≡ pr' = some-injective _ _ (rw (found, service_step) at h) in
            let (settings, left) =
              step-Left sh make_address reported e pr.links pr.service sv
                (subst (λ t. ContextRan sh t pr.service.ioc pr.links) (sym kept) ran) found in
            rw (← same) (
              settings ∙ kept,
              subst (λ t. ContextRan sh t sv.ioc (links_on sv.ioc pr.links)) kept left,
            )
      ]

  handler_step-ProgramRan :
      (e : ServerEvent) (listener : Option Listener) (io : IoContext) (pr pr' : Program)
      → pr.service.settings ≡ s
      → ListenerRan sh s listener pr.links
      → handler_step make_address reported sh e listener io pr ≡ some pr'
      → ProgramRan pr'
  unfolding handler_step put_server
  handler_step-ProgramRan e none io pr pr' kept ran h = cc
  handler_step-ProgramRan e (some l) io pr pr' kept ran h =
      let before : Server = record { listener = l; links = pr.links } in
      elim (Bool-cases io.stopped) [
        | inl over ↦ ground (arith, over)
        | inr going ↦ elim (Option-cases (serve_step sh e before)) [
          | inl missing ↦ ground (arith, missing, going)
          | inr (sv, found) ↦
              let same : put_server pr io sv ≡ pr' =
                some-injective _ _ (rw (going, found, handler_step) at h) in
              rw (← same) (kept, serve_step-ServerRan sh s.document_root s e before sv ran found)
        ]
      ]

  context_step-ProgramRan :
      (e : ServerEvent) (ioc : Option IoContext) (pr pr' : Program)
      → pr.service.settings ≡ s
      → ContextRan sh s ioc pr.links
      → context_step make_address reported sh e ioc pr ≡ some pr'
      → ProgramRan pr'
  unfolding context_step
  context_step-ProgramRan e none pr pr' kept ran h = cc
  context_step-ProgramRan e (some io) pr pr' kept ran h = elim (Bool-cases (at_work pr.service)) [
    | inr idle ↦ ground (arith, idle)
    | inl busy ↦
        handler_step-ProgramRan e io.listener io pr pr' kept ran (rw (busy, context_step) at h)
  ]

  program_step-ProgramRan :
      (e : ProgramEvent) (pr pr' : Program)
      → ProgramRan pr
      → program_step make_address reported sh e pr ≡ some pr'
      → ProgramRan pr'
  unfolding program_step
  program_step-ProgramRan (at_service e) pr pr' v h = service_step-ProgramRan e pr pr' v h
  program_step-ProgramRan (serving e) pr pr' (kept, ran) h =
      context_step-ProgramRan e pr.service.ioc pr pr' kept ran h

-- The connections there are have a context, and a listener on it.
abbrev pub Housed : Option IoContext → List Link → Type 0
Housed ioc links =
    (links ≡ []) ⊎ (io : IoContext) × (l : Listener) × (ioc ≡ some io) × (io.listener ≡ some l)

module _ (p : PropertyTree) (w : Surroundings p) where
  service_started :
      (g : Settings) (outcome : Outcome) (ctx : SslContext) (sv : Service)
      → serve_with p w g outcome ≡ started ctx sv
      → sv ≡ start w.make_address w.reported (new_service g)
  unfolding serve_with
  service_started g (made, some e) ctx sv h = cc
  service_started g (made, none) ctx sv h = cc

  main_started :
      (path : Bytes) (l lg : Logging) (tree : p.Tree) (ctx : SslContext) (sv : Service)
      → w.read_json path ≡ some tree
      → run_main p w 2 path l ≡ (started ctx sv, lg)
      → sv ≡ start w.make_address w.reported (new_service (file_settings p w tree))
  unfolding run_main
  main_started path l lg tree ctx sv read h =
      service_started (file_settings p w tree) (file_certificates p w tree) ctx sv
        (ap (λ o. o.0) (rw (read, run_main) at h))

  -- Each connection has run from its beginning, launched with the settings of the file.
  pub run_main-ContextRan :
      (sh : Shared) (path : Bytes) (l lg : Logging) (tree : p.Tree) (ctx : SslContext)
      (sv : Service) (es : List ProgramEvent) (pr : Program)
      → w.read_json path ≡ some tree
      → run_main p w 2 path l ≡ (started ctx sv, lg)
      → program_run w.make_address w.reported sh es (record { service = sv; links = [] }) ≡ some pr
      → ContextRan sh (file_settings p w tree) pr.service.ioc pr.links
  unfolding new_service
  run_main-ContextRan sh path l lg tree ctx sv es pr read begun h =
      let s = file_settings p w tree in
      let first = start-ran sh w.make_address w.reported none [] (new_service s) refl refl in
      (run_all-keeps (program_step w.make_address w.reported sh)
        (ProgramRan w.make_address w.reported sh s)
        (program_step-ProgramRan w.make_address w.reported sh s) es
        (record { service = sv; links = [] }) pr
        (rw (main_started path l lg tree ctx sv read begun) first) h).1
