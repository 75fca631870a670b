-- ===== src/Server/Links.antt =====
-- The sessions of the whole server (src/c++/systemicai/http/server/server.cpp and sessions.hpp): each has
-- come to where it is by completions of its own.
use advanced_flex_server.Common.{
  false, subst, ℕ, List, [], ◌∷◌, ◌++◌, Option, none, some, ◌≡◌, refl, Bytes, zero, suc, inl, inr,
  arith, sym, ap, some-injective, Option-cases, All, run_all, run_all-snoc,
}
use advanced_flex_server.ServerSettings.{Settings}
use advanced_flex_server.Handler.{Request}
use advanced_flex_server.Session.{Session, Kind, new_session, run as run_session}
use advanced_flex_server.Session.Wire.{Wire, Event, start, deliver, deliver_all}
use advanced_flex_server.WebSocket.Wire.{
  WsWire, WsEvent, open_wire, complete as complete_ws, complete_all as complete_all_ws,
}
use advanced_flex_server.Detector.{Detector, Launch}
use advanced_flex_server.Server.{
  Shared, Link, new_link, attach, join, refresh, context, open_websocket, http_step, websocket_step,
  step_at,
}

module _ (sh : Shared) (doc_root : Bytes) (s : Settings) where
  -- A session that was started with these settings and has run from its beginning.
  abbrev pub HttpRan : Option (Launch × Wire) → Type 0
  HttpRan none = Unit {0}
  HttpRan (some (launch, w)) =
      (launch.doc_root ≡ doc_root)
      × (launch.settings ≡ s)
      × ((kind : Kind) × (buffer : Bytes) × (es : List Event) × (deliver_all (context sh launch) es
              (start kind buffer)
            ≡ some w))

  abbrev pub WsRan : Option WsWire → Type 0
  WsRan none = Unit {0}
  WsRan (some v) =
      (req : Request) × (es : List WsEvent) × (complete_all_ws es (open_wire sh.version_string req)
        ≡ some v)

  abbrev pub LinkRan : Link → Type 0
  LinkRan link = HttpRan link.http × WsRan link.websocket

  -- What a detector of this listener has launched.
  abbrev pub Launches : List Launch → Type 0
  Launches launched =
      All
        (λ (l : Launch).
          (l.doc_root ≡ doc_root)
          × (l.settings ≡ s)
          × ((kind : Kind) × (buffer : Bytes) × (l.session
                ≡ run_session (new_session kind buffer))))
        launched

  attach-start :
      (launch : Launch) (kind : Kind) (buffer : Bytes)
      → launch.session ≡ run_session (new_session kind buffer)
      → attach launch ≡ start kind buffer
  unfolding attach start
  attach-start launch kind buffer e =
      ap
        (λ (ss : Session). record {
          session = ss;
          requests = [];
          transmitted = [];
          read_over = false;
        })
        e

  join-LinkRan :
      (launched : List Launch) (http : Option (Launch × Wire)) (link : Link)
      → link.http ≡ http
      → Launches launched
      → LinkRan link
      → LinkRan (join launched link)
  unfolding join run_all
  join-LinkRan launched (some busy) link e ok v = rw e (subst (λ x. HttpRan x) e v.0, v.1)
  join-LinkRan [] none link e ok v = rw e (tt, v.1)
  join-LinkRan (launch ∷ rest) none link e ((root, kept, (kind, buffer, begun)), more) v =
      rw e (
        (root, kept, (kind, buffer, [], ap some (sym (attach-start launch kind buffer begun)))),
        v.1,
      )

  pub refresh-LinkRan :
      (ds : List Detector) (links : List Link)
      → All (λ (d : Detector). Launches d.launched) ds
      → All LinkRan links
      → All LinkRan (refresh ds links)
  unfolding refresh
  refresh-LinkRan [] links oks v = tt
  refresh-LinkRan (d ∷ ds) [] (ok, oks) v =
      (join-LinkRan d.launched none new_link refl ok (tt, tt), refresh-LinkRan ds [] oks tt)
  refresh-LinkRan (d ∷ ds) (link ∷ links) (ok, oks) (v, vs) =
      (join-LinkRan d.launched link.http link refl ok v, refresh-LinkRan ds links oks vs)

  open_websocket-WsRan :
      (upgrades : List Request) (ws : Option WsWire)
      → WsRan ws
      → WsRan (open_websocket sh upgrades ws)
  unfolding open_websocket run_all
  open_websocket-WsRan upgrades (some ws) v = v
  open_websocket-WsRan [] none v = tt
  open_websocket-WsRan (req ∷ rest) none v = (req, [], refl)

  pub http_step-LinkRan :
      (e : Event) (http : Option (Launch × Wire)) (link link' : Link)
      → link.http ≡ http
      → LinkRan link
      → http_step sh e link ≡ some link'
      → LinkRan link'
  unfolding http_step
  http_step-LinkRan e none link link' q v h = ground (arith, q)
  http_step-LinkRan e (some (launch, w)) link link' q v h =
      let (root, kept, (kind, buffer, es, came)) = subst (λ x. HttpRan x) q v.0 in
      elim (Option-cases (deliver (context sh launch) e w)) [
        | inl missing ↦ ground (arith, missing, q)
        | inr (w', found) ↦
            let next : Link = record {
              http = some (launch, w');
              websocket = open_websocket sh w'.session.upgrades link.websocket;
            } in
            let same : next ≡ link' = some-injective _ _ (rw (q, http_step, found) at h) in
            let more =
              run_all-snoc (deliver (context sh launch)) es e (start kind buffer) w w' came found in
            rw (← same) (
              (root, kept, (kind, buffer, es ++ e ∷ [], more)),
              open_websocket-WsRan w'.session.upgrades link.websocket v.1,
            )
      ]

  pub websocket_step-LinkRan :
      (e : WsEvent) (ws : Option WsWire) (link link' : Link)
      → link.websocket ≡ ws
      → LinkRan link
      → websocket_step e link ≡ some link'
      → LinkRan link'
  unfolding websocket_step
  websocket_step-LinkRan e none link link' q v h = ground (arith, q)
  websocket_step-LinkRan e (some w) link link' q v h =
      let (req, es, came) = subst (λ x. WsRan x) q v.1 in
      elim (Option-cases (complete_ws e w)) [
        | inl missing ↦ ground (arith, missing, q)
        | inr (w', found) ↦
            let same : (record link { websocket = some w' }) ≡ link' =
              some-injective _ _ (rw (q, websocket_step, found) at h) in
            let more =
              run_all-snoc complete_ws es e (open_wire sh.version_string req) w w' came found in
            rw (← same) (v.0, (req, es ++ e ∷ [], more))
      ]

  pub step_at-LinkRan :
      (f : Link → Option Link)
      → ((link link' : Link) → LinkRan link → f link ≡ some link' → LinkRan link')
      → (i : ℕ) (links links' : List Link) → All LinkRan links
      → step_at f i links ≡ some links'
      → All LinkRan links'
  unfolding step_at
  step_at-LinkRan f keep i [] links' v h = cc
  step_at-LinkRan f keep zero (link ∷ links) links' (v, vs) h = elim (Option-cases (f link)) [
    | inl missing ↦ ground (arith, missing)
    | inr (u, found) ↦
        let same : u ∷ links ≡ links' = some-injective _ _ (rw (found, step_at) at h) in
        rw (← same) (keep link u v found, vs)
  ]
  step_at-LinkRan f keep (suc i) (link ∷ links) links' (v, vs) h =
      elim (Option-cases (step_at f i links)) [
        | inl missing ↦ ground (arith, missing)
        | inr (rest, found) ↦
            let same : link ∷ rest ≡ links' = some-injective _ _ (rw (found, step_at) at h) in
            rw (← same) (v, step_at-LinkRan f keep i links rest vs found)
      ]
