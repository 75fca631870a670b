-- ===== src/Server/Progress.antt =====
-- What a connection of the whole server (src/c++/systemicai/http/server/server.cpp) can do, whatever there
-- is on the others.
use advanced_flex_server.Common.{
  ℕ, zero, suc, List, [], ◌∷◌, map, Option, none, some, ◌≡◌, refl, ap, ◌∙◌, subst, All, Bytes, true,
  run_all, some-injective, run_all-split, run_all-step,
}
use advanced_flex_server.Errors.{ErrorCode}
use advanced_flex_server.ServerSettings.{Settings}
use advanced_flex_server.Session.{open_stream}
use advanced_flex_server.Session.Wire.{Wire, Event, deliver, deliver_all}
use advanced_flex_server.Session.Pipelining.{respond}
use advanced_flex_server.Session.Specification.{Pipeline, Step}
use advanced_flex_server.Session.Simulation.{Shows}
use advanced_flex_server.Session.Availability.{deliver_all-Reaches}
use advanced_flex_server.Detector.{Launch}
use advanced_flex_server.Listener.{AcceptorCall, Endpoint}
use advanced_flex_server.Server.{
  Shared, Link, Server, ServerEvent, http_done, context, open_websocket, http_step, step_at,
  links_step, serve_step, serve_all, open_server,
}
use advanced_flex_server.Server.Links.{LinkRan, HttpRan}
use advanced_flex_server.Server.Sessions.{serve_all-ServerRan}

-- A step at a place among the links.
module _ (f : Link → Option Link) where
  step_at-here :
      (link u : Link) (links : List Link)
      → f link ≡ some u
      → step_at f 0 (link ∷ links) ≡ some (u ∷ links)
  unfolding step_at
  step_at-here link u links h = rw (h, step_at) refl

  step_at-there :
      (i : ℕ) (link : Link) (links rest : List Link)
      → step_at f i links ≡ some rest
      → step_at f (suc i) (link ∷ links) ≡ some (link ∷ rest)
  unfolding step_at
  step_at-there i link links rest h = rw h refl

-- The HTTP session of connection `i`.
unfoldable pub session_at : ℕ → List Link → Option (Launch × Wire)
session_at i [] = none
session_at zero (link ∷ links) = link.http
session_at (suc i) (link ∷ links) = session_at i links

module _ (sh : Shared) where
  -- A completion of an HTTP session is one of its link, and one at its place among the links.
  http_step-deliver :
      (e : Event) (link : Link) (launch : Launch) (w w' : Wire)
      → link.http ≡ some (launch, w)
      → deliver (context sh launch) e w ≡ some w'
      → http_step sh e link
        ≡ some (record {
          http = some (launch, w');
          websocket = open_websocket sh w'.session.upgrades link.websocket;
        })
  unfolding http_step
  http_step-deliver e link launch w w' at_link h = rw (at_link, http_step, h) refl

  step_at-deliver :
      (e : Event) (i : ℕ) (links : List Link) (launch : Launch) (w w' : Wire)
      → session_at i links ≡ some (launch, w)
      → deliver (context sh launch) e w ≡ some w'
      → (links' : List Link) × (step_at (http_step sh e) i links ≡ some links')
        × (session_at i links' ≡ some (launch, w'))
  unfolding session_at step_at
  step_at-deliver e i [] launch w w' at_i h = cc
  step_at-deliver e zero (link ∷ links) launch w w' at_i h =
      let next : Link = record {
        http = some (launch, w');
        websocket = open_websocket sh w'.session.upgrades link.websocket;
      } in
      (
        next ∷ links,
        step_at-here (http_step sh e) link next links (http_step-deliver e link launch w w' at_i h),
        refl,
      )
  step_at-deliver e (suc i) (link ∷ links) launch w w' at_i h =
      let (rest, stepped, at_rest) = step_at-deliver e i links launch w w' at_i h in
      (link ∷ rest, step_at-there (http_step sh e) i link links rest stepped, at_rest)

  pub serve_step-deliver :
      (e : Event) (i : ℕ) (sv : Server) (launch : Launch) (w w' : Wire)
      → session_at i sv.links ≡ some (launch, w)
      → deliver (context sh launch) e w ≡ some w'
      → (sv' : Server) × (serve_step sh (http_done i e) sv ≡ some sv')
        × (session_at i sv'.links ≡ some (launch, w'))
  unfolding serve_step links_step
  serve_step-deliver e i sv launch w w' at_i h =
      let (links, stepped, at_links) = step_at-deliver e i sv.links launch w w' at_i h in
      (record sv { links = links }, rw stepped refl, at_links)

  -- What a session can do alone, it can do in the server.
  pub serve_all-deliver_all :
      (es : List Event) (i : ℕ) (sv : Server) (launch : Launch) (w w' : Wire)
      → session_at i sv.links ≡ some (launch, w)
      → deliver_all (context sh launch) es w ≡ some w'
      → (sv' : Server) × (serve_all sh (map (http_done i) es) sv ≡ some sv')
        × (session_at i sv'.links ≡ some (launch, w'))
  unfolding run_all
  serve_all-deliver_all [] i sv launch w w' at_i h =
      (sv, refl, at_i ∙ ap (λ (t : Wire). some (launch, t)) (some-injective _ _ h))
  serve_all-deliver_all (e ∷ es) i sv launch w w' at_i h =
      let (v, first, rest) = run_all-split (deliver (context sh launch)) e es w w' h in
      let (mid, stepped, at_mid) = serve_step-deliver e i sv launch w v at_i first in
      let (sv', ran, at_end) = serve_all-deliver_all es i mid launch v w' at_mid rest in
      (
        sv',
        run_all-step (serve_step sh) (http_done i e) (map (http_done i) es) sv mid stepped ∙ ran,
        at_end,
      )

  pub session_at-HttpRan :
      (doc_root : Bytes) (s : Settings) (i : ℕ) (links : List Link) (launch : Launch) (w : Wire)
      → All (LinkRan sh doc_root s) links
      → session_at i links ≡ some (launch, w)
      → HttpRan sh doc_root s (some (launch, w))
  unfolding session_at
  session_at-HttpRan doc_root s i [] launch w v at_i = cc
  session_at-HttpRan doc_root s zero (link ∷ links) launch w (v, vs) at_i =
      subst (HttpRan sh doc_root s) at_i v.0
  session_at-HttpRan doc_root s (suc i) (link ∷ links) launch w (v, vs) at_i =
      session_at-HttpRan doc_root s i links launch w vs at_i

  -- While the HTTP session of a connection writes and its stream is open, whatever has happened on the
  -- others, each step that
  -- Session/Specification can take from what it shows is taken by completions of its own.
  pub serve_all-Reaches :
      (doc_root : Bytes) (s : Settings) (reported : AcceptorCall → ErrorCode) (endpoint : Endpoint)
      (es : List ServerEvent) (sv : Server) (i : ℕ) (launch : Launch) (w : Wire) (p q : Pipeline)
      → serve_all sh es (open_server reported endpoint doc_root s) ≡ some sv
      → session_at i sv.links ≡ some (launch, w)
      → w.session.stream ≡ open_stream
      → Shows w p
      → p.writing ≡ true
      → Step (respond (context sh launch)) sh.need_eof p q
      → (own : List Event) × (sv' : Server) × (w' : Wire) × (serve_all sh (map (http_done i) own) sv
          ≡ some sv')
        × (session_at i sv'.links ≡ some (launch, w'))
        × Shows w' q
  serve_all-Reaches doc_root s reported endpoint es sv i launch w p q h at_i sends shows on step =
      let (_, ran) = serve_all-ServerRan sh doc_root s reported endpoint es sv h in
      let (_, _, (kind, buffer, before, came)) =
        session_at-HttpRan doc_root s i sv.links launch w ran at_i in
      let (own, w', k, t) =
        deliver_all-Reaches (context sh launch) before kind buffer w p q came sends shows on step in
      let (sv', served, at_end) = serve_all-deliver_all own i sv launch w w' at_i k in
      (own, sv', w', served, at_end, t)
