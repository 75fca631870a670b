-- ===== src/Server/Outlived.antt =====
-- The detectors of src/c++/systemicai/http/server/server.cpp that no operation holds any more, next to
-- the sessions that they have launched.
use advanced_flex_server.Common.{
  ℕ, List, [], ◌∷◌, ◌++◌, Option, none, some, ◌≡◌, ◌≢◌, ◌⊎◌, refl, Bytes, All, inl, inr, zero, suc,
  arith, some-injective, Option-cases, ◌+◌, Bool-cases,
}
use advanced_flex_server.Errors.{ErrorCode, is_error}
use advanced_flex_server.ServerSettings.{Settings}
use advanced_flex_server.Session.Wire.{Wire, Event}
use advanced_flex_server.WebSocket.Wire.{WsEvent}
use advanced_flex_server.Detector.{Detector, Launch}
use advanced_flex_server.Detector.Schedules.{
  DetectorEvent, step, steps-Course, owners, call_on_run, call_on_detect, dispatched, detected,
}
use advanced_flex_server.Listener.{Listener, on_accept, do_accept}
use advanced_flex_server.Listener.Events.{
  ListenerEvent, accept_done, progress, Ran, complete_accept, progress_at,
  complete as complete_listener,
}
use advanced_flex_server.Server.{
  Shared, Link, new_link, join, refresh, step_at, http_step, websocket_step,
}

-- No session, or a detector that nothing holds.
abbrev pub Outlived : Detector → Link → Type 0
Outlived d link = (link.http ≡ none) ⊎ (owners d ≡ 0)

-- Of each detector and its link.
abbrev pub AllOutlived : List Detector → List Link → Type 0
AllOutlived [] [] = Unit {0}
AllOutlived [] (link ∷ links) = ⊥
AllOutlived (d ∷ ds) [] = ⊥
AllOutlived (d ∷ ds) (link ∷ links) = Outlived d link × AllOutlived ds links

-- The same before the links of new detectors are there.
abbrev Pending : List Detector → List Link → Type 0
Pending ds [] = Unit {0}
Pending [] (link ∷ links) = ⊥
Pending (d ∷ ds) (link ∷ links) = Outlived d link × Pending ds links

AllOutlived-Pending :
    (ds : List Detector) (links : List Link) → AllOutlived ds links → Pending ds links
AllOutlived-Pending [] [] v = tt
AllOutlived-Pending [] (link ∷ links) v = absurd v
AllOutlived-Pending (d ∷ ds) [] v = absurd v
AllOutlived-Pending (d ∷ ds) (link ∷ links) (v, vs) = (v, AllOutlived-Pending ds links vs)

-- A detector that has launched a session is held by nothing.
abbrev Done : Detector → Type 0
Done d = (d.launched ≡ []) ⊎ (owners d ≡ 0)

Ran-Done : (doc_root : Bytes) (s : Settings) (d : Detector) → Ran doc_root s d → Done d
Ran-Done doc_root s d (seen, came) = elim (steps-Course doc_root s seen d came) [
  | inl (_, none_yet, _, _) ↦ inl none_yet
  | inr (_, _, _, _, unheld, _, _) ↦ inr unheld
]

pub All-Done :
    (doc_root : Bytes) (s : Settings) (ds : List Detector) → All (Ran doc_root s) ds → All Done ds
All-Done doc_root s [] v = tt
All-Done doc_root s (d ∷ ds) (v, vs) = (Ran-Done doc_root s d v, All-Done doc_root s ds vs)

join-Outlived :
    (launched : List Launch) (http : Option (Launch × Wire)) (d : Detector) (link : Link)
    → link.http ≡ http
    → d.launched ≡ launched
    → Done d
    → Outlived d link
    → Outlived d (join launched link)
unfolding join
join-Outlived launched (some busy) d link e l done v = ground (arith, e)
join-Outlived [] none d link e l done v = ground (arith, e)
join-Outlived (launch ∷ rest) none d link e l (inl empty) v = cc
join-Outlived (launch ∷ rest) none d link e l (inr unheld) v = inr unheld

pub refresh-Outlived :
    (ds : List Detector) (links : List Link)
    → All Done ds
    → Pending ds links
    → AllOutlived ds (refresh ds links)
unfolding refresh
refresh-Outlived [] [] done v = tt
refresh-Outlived [] (link ∷ links) done v = absurd v
refresh-Outlived (d ∷ ds) [] (done, all) v = (
  join-Outlived d.launched none d new_link refl refl done (inl refl),
  refresh-Outlived ds [] all tt,
)
refresh-Outlived (d ∷ ds) (link ∷ links) (done, all) (v, vs) =
    (join-Outlived d.launched link.http d link refl refl done v, refresh-Outlived ds links all vs)

-- A new detector waits for its link.
AllOutlived-snoc :
    (ds more : List Detector) (links : List Link)
    → AllOutlived ds links
    → Pending (ds ++ more) links
AllOutlived-snoc [] more [] v = tt
AllOutlived-snoc [] more (link ∷ links) v = absurd v
AllOutlived-snoc (d ∷ ds) more [] v = tt
AllOutlived-snoc (d ∷ ds) more (link ∷ links) (v, vs) = (v, AllOutlived-snoc ds more links vs)

-- What nothing holds makes no step.
held :
    (e : DetectorEvent) (n m : ℕ) (d d' : Detector)
    → d.runs ≡ n
    → d.detects ≡ m
    → step e d ≡ some d'
    → n + m ≢ 0
unfolding step call_on_run call_on_detect
held dispatched zero m d d' r w h sum = ground (arith, r)
held dispatched (suc n) m d d' r w h sum = absurd (omega (arith, sum))
held (detected ec result buffer) n zero d d' r w h sum = ground (arith, w)
held (detected ec result buffer) n (suc m) d d' r w h sum = absurd (omega (arith, sum))

step-Outlived :
    (e : DetectorEvent) (d d' : Detector) (link : Link)
    → step e d ≡ some d'
    → Outlived d link
    → Outlived d' link
unfolding owners
step-Outlived e d d' link h (inl empty) = inl empty
step-Outlived e d d' link h (inr unheld) = absurd (held e d.runs d.detects d d' refl refl h unheld)

progress_at-Pending :
    (i : ℕ) (e : DetectorEvent) (ds ds' : List Detector) (links : List Link)
    → progress_at i e ds ≡ some ds'
    → AllOutlived ds links
    → Pending ds' links
unfolding progress_at
progress_at-Pending i e [] ds' links h v = cc
progress_at-Pending zero e (d ∷ ds) ds' [] h v = absurd v
progress_at-Pending (suc i) e (d ∷ ds) ds' [] h v = absurd v
progress_at-Pending zero e (d ∷ ds) ds' (link ∷ links) h (v, vs) = elim (Option-cases (step e d)) [
  | inl missing ↦ ground (arith, missing)
  | inr (d', found) ↦
      let same : d' ∷ ds ≡ ds' = some-injective _ _ (rw (found, progress_at) at h) in
      rw (← same) (step-Outlived e d d' link found v, AllOutlived-Pending ds links vs)
]
progress_at-Pending (suc i) e (d ∷ ds) ds' (link ∷ links) h (v, vs) =
    elim (Option-cases (progress_at i e ds)) [
      | inl missing ↦ ground (arith, missing)
      | inr (rest, found) ↦
          let same : d ∷ rest ≡ ds' = some-injective _ _ (rw (found, progress_at) at h) in
          rw (← same) (v, progress_at-Pending i e ds rest links found vs)
    ]

accept-Pending :
    (n : ℕ) (ec : ErrorCode) (l l' : Listener) (links : List Link)
    → complete_accept n ec l ≡ some l'
    → AllOutlived l.detectors links
    → Pending l'.detectors links
unfolding complete_accept on_accept do_accept
accept-Pending zero ec l l' links h v = cc
accept-Pending (suc n) ec l l' links h v =
    let next = some-injective _ _ h in
    rw (← next) (elim (Bool-cases (is_error ec)) [
      | inl bad ↦ rw bad (AllOutlived-Pending l.detectors links v)
      | inr ok ↦ rw ok (AllOutlived-snoc l.detectors _ links v)
    ])

pub complete-Pending :
    (e : ListenerEvent) (l l' : Listener) (links : List Link)
    → complete_listener e l ≡ some l'
    → AllOutlived l.detectors links
    → Pending l'.detectors links
unfolding complete_listener
complete-Pending (accept_done ec) l l' links h v = accept-Pending l.accepts ec l l' links h v
complete-Pending (progress i e) l l' links h v = elim (Option-cases (progress_at i e l.detectors)) [
  | inl missing ↦ ground (arith, missing)
  | inr (ds, found) ↦
      let same : (record l { detectors = ds }) ≡ l' =
        some-injective _ _ (rw (found, complete_listener) at h) in
      rw (← same) (progress_at-Pending i e l.detectors ds links found v)
]

pub http_step-Outlived :
    (sh : Shared) (e : Event) (d : Detector) (link link' : Link)
    → Outlived d link
    → http_step sh e link ≡ some link'
    → Outlived d link'
unfolding http_step
http_step-Outlived sh e d link link' (inl empty) h = ground (arith, empty)
http_step-Outlived sh e d link link' (inr unheld) h = inr unheld

pub websocket_step-Outlived :
    (e : WsEvent) (d : Detector) (link link' : Link)
    → Outlived d link
    → websocket_step e link ≡ some link'
    → Outlived d link'
unfolding websocket_step
websocket_step-Outlived e d link link' v h = ground arith

pub step_at-Outlived :
    (f : Link → Option Link)
    → ((d : Detector) (link link' : Link)
        → Outlived d link
        → f link ≡ some link'
        → Outlived d link')
    → (i : ℕ) (ds : List Detector) (links links' : List Link) → AllOutlived ds links
    → step_at f i links ≡ some links'
    → AllOutlived ds links'
unfolding step_at
step_at-Outlived f keep i ds [] links' v h = cc
step_at-Outlived f keep i [] (link ∷ links) links' v h = absurd v
step_at-Outlived f keep zero (d ∷ ds) (link ∷ links) links' (v, vs) h =
    elim (Option-cases (f link)) [
      | inl missing ↦ ground (arith, missing)
      | inr (u, found) ↦
          let same : u ∷ links ≡ links' = some-injective _ _ (rw (found, step_at) at h) in
          rw (← same) (keep d link u v found, vs)
    ]
step_at-Outlived f keep (suc i) (d ∷ ds) (link ∷ links) links' (v, vs) h =
    elim (Option-cases (step_at f i links)) [
      | inl missing ↦ ground (arith, missing)
      | inr (rest, found) ↦
          let same : link ∷ rest ≡ links' = some-injective _ _ (rw (found, step_at) at h) in
          rw (← same) (v, step_at-Outlived f keep i ds links rest vs found)
    ]
