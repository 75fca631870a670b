-- ===== src/Listener/Connections.antt =====
-- The connections that the listener of src/c++/systemicai/http/server/server.cpp accepts, with their
-- detectors.
use advanced_flex_server.Common.{
  run_all, run_all-snoc, ℕ, ◌+◌, List, [], ◌∷◌, ◌++◌, some, Bytes, if◌then◌else◌, zero, suc, ◌≡◌,
  refl, ap, ◌∙◌, inl, inr, arith, Option-cases, Bool-cases, length, All, All-append, length-append,
  some-injective, subst,
}
use advanced_flex_server.Errors.{ErrorCode, is_error, fail, Log}
use advanced_flex_server.ServerSettings.{Settings}
use advanced_flex_server.Detector.{Detector, new_detector, run as run_detector}
use advanced_flex_server.Detector.Schedules.{DetectorEvent, step, steps, Course, steps-Course}
use advanced_flex_server.Listener.{
  Listener, Endpoint, AcceptorCall, new_listener, run, do_accept, on_accept,
}
use advanced_flex_server.Listener.Construction.{new_listener-setup}
use advanced_flex_server.Listener.Events.{
  ListenerEvent, accept_done, progress, complete_accept, progress_at, complete, complete_all,
  accepted, refused, Ran, Serves,
}

steps-nil :
    (doc_root : Bytes) (s : Settings)
    → steps [] (run_detector (new_detector doc_root s))
      ≡ some (run_detector (new_detector doc_root s))
unfolding run_all
steps-nil doc_root s = refl

on_accept-Serves :
    (ec : ErrorCode) (doc_root : Bytes) (s : Settings) (count : ℕ) (log : Log) (l : Listener)
    → Serves doc_root s count log l
    → Serves doc_root s
        (count + (if is_error ec then 0 else 1))
        (if is_error ec then fail ec "accept" log else log)
        (on_accept ec (record l { accepts = 0 }))
unfolding on_accept do_accept
on_accept-Serves ec doc_root s count log l v = elim (Bool-cases (is_error ec)) [
  | inl bad ↦ rw bad (record {
    root = v.root;
    kept = v.kept;
    accepting = refl;
    connections = omega (arith, v.connections);
    logged = ap (λ lines. fail ec "accept" lines) v.logged;
    ran = v.ran;
  })
  | inr ok ↦ rw ok (record {
    root = v.root;
    kept = v.kept;
    accepting = refl;
    connections =
        length-append l.detectors (run_detector (new_detector l.doc_root l.settings) ∷ [])
        ∙ ap (λ n. n + 1) v.connections;
    logged = v.logged;
    ran =
        All-append (Ran doc_root s) l.detectors
          (run_detector (new_detector l.doc_root l.settings) ∷ []) v.ran
          (([], rw (v.root, v.kept) (steps-nil doc_root s)), tt);
  })
]

progress_at-Ran :
    (doc_root : Bytes) (s : Settings) (i : ℕ) (e : DetectorEvent) (ds ds' : List Detector)
    → progress_at i e ds ≡ some ds'
    → All (Ran doc_root s) ds
    → All (Ran doc_root s) ds' × (length ds' ≡ length ds)
unfolding progress_at
progress_at-Ran doc_root s i e [] ds' h ran = cc
progress_at-Ran doc_root s zero e (d ∷ ds) ds' h ((es, came), ran) =
    elim (Option-cases (step e d)) [
      | inl missing ↦ ground (arith, missing)
      | inr (d', found) ↦
          let same : d' ∷ ds ≡ ds' = some-injective _ _ (rw (found, progress_at) at h) in
          rw (← same) (((es ++ e ∷ [], run_all-snoc step es e _ d d' came found), ran), refl)
    ]
progress_at-Ran doc_root s (suc i) e (d ∷ ds) ds' h (came, ran) =
    elim (Option-cases (progress_at i e ds)) [
      | inl missing ↦ ground (arith, missing)
      | inr (rest, found) ↦
          let same : d ∷ rest ≡ ds' = some-injective _ _ (rw (found, progress_at) at h) in
          let (all, size) = progress_at-Ran doc_root s i e ds rest found ran in
          rw (← same) ((came, all), ap suc size)
    ]

accept_completed :
    (n : ℕ) (ec : ErrorCode) (doc_root : Bytes) (s : Settings) (count : ℕ) (log : Log)
    (l l' : Listener)
    → l.accepts ≡ n
    → Serves doc_root s count log l
    → complete_accept n ec l ≡ some l'
    → Serves doc_root s
        (count + (if is_error ec then 0 else 1))
        (if is_error ec then fail ec "accept" log else log)
        l'
unfolding complete_accept
accept_completed zero ec doc_root s count log l l' e v h = cc
accept_completed (suc n) ec doc_root s count log l l' e v h =
    let last : n ≡ 0 = omega (arith, v.accepting, e) in
    let same : on_accept ec (record l { accepts = 0 }) ≡ l' = rw last at (some-injective _ _ h) in
    rw (← same) (on_accept-Serves ec doc_root s count log l v)

progress_completed :
    (i : ℕ) (e : DetectorEvent) (doc_root : Bytes) (s : Settings) (count : ℕ) (log : Log)
    (l l' : Listener)
    → Serves doc_root s count log l
    → complete (progress i e) l ≡ some l'
    → Serves doc_root s count log l'
unfolding complete
progress_completed i e doc_root s count log l l' v h =
    elim (Option-cases (progress_at i e l.detectors)) [
      | inl missing ↦ ground (arith, missing)
      | inr (ds, found) ↦
          let same : (record l { detectors = ds }) ≡ l' =
            some-injective _ _ (rw (found, complete) at h) in
          let (all, size) = progress_at-Ran doc_root s i e l.detectors ds found v.ran in
          rw (← same) (record {
            root = v.root;
            kept = v.kept;
            accepting = v.accepting;
            connections = size ∙ v.connections;
            logged = v.logged;
            ran = all;
          })
    ]

accept_event :
    (ec : ErrorCode) (l l' : Listener)
    → complete (accept_done ec) l ≡ some l'
    → complete_accept l.accepts ec l ≡ some l'
unfolding complete
accept_event ec l l' h = h

recount :
    {doc_root : Bytes} {s : Settings} {n m : ℕ} {log : Log} {l : Listener}
    → n ≡ m
    → Serves doc_root s n log l
    → Serves doc_root s m log l
recount {doc_root} {s} {n} {m} {log} {l} e v = subst (λ k. Serves doc_root s k log l) e v

-- Each completion keeps the listener serving.
pub complete-Serves :
    (e : ListenerEvent) (doc_root : Bytes) (s : Settings) (count : ℕ) (log : Log) (l l' : Listener)
    → Serves doc_root s count log l
    → complete e l ≡ some l'
    → (count' : ℕ) × (log' : Log) × Serves doc_root s count' log' l'
complete-Serves (accept_done ec) doc_root s count log l l' v h =
    (_, _, accept_completed l.accepts ec doc_root s count log l l' refl v (accept_event ec l l' h))
complete-Serves (progress i e) doc_root s count log l l' v h =
    (_, _, progress_completed i e doc_root s count log l l' v h)

completed_all :
    (es : List ListenerEvent) (doc_root : Bytes) (s : Settings) (count : ℕ) (log : Log)
    (l l' : Listener)
    → Serves doc_root s count log l
    → complete_all es l ≡ some l'
    → Serves doc_root s (count + accepted es) (refused es log) l'
unfolding run_all accepted refused
completed_all [] doc_root s count log l l' v h =
    let same : l ≡ l' = cc in rw (← same) (recount (omega arith) v)
completed_all (accept_done ec ∷ es) doc_root s count log l l' v h =
    elim (Option-cases (complete (accept_done ec) l)) [
      | inl missing ↦ ground (arith, missing)
      | inr (u, found) ↦
          let w =
            accept_completed l.accepts ec doc_root s count log l u refl v
              (accept_event ec l u found) in
          let all = completed_all es doc_root s _ _ u l' w (rw (found, run_all) at h) in
          recount (omega arith) all
    ]
completed_all (progress i e ∷ es) doc_root s count log l l' v h =
    elim (Option-cases (complete (progress i e) l)) [
      | inl missing ↦ ground (arith, missing)
      | inr (u, found) ↦
          completed_all es doc_root s count log u l'
            (progress_completed i e doc_root s count log l u v found) (rw (found, run_all) at h)
    ]

pub opened-Serves :
    (reported : AcceptorCall → ErrorCode) (e : Endpoint) (doc_root : Bytes) (s : Settings)
    → Serves doc_root s 0
        (new_listener reported e doc_root s).log
        (run (new_listener reported e doc_root s))
unfolding run do_accept
opened-Serves reported e doc_root s =
    let built = new_listener-setup reported e doc_root s in
    rw built (record {
      root = refl;
      kept = refl;
      accepting = refl;
      connections = refl;
      logged = refl;
      ran = tt;
    })

All-map :
    {P Q : Detector → Type 0} (ds : List Detector)
    → ((d : Detector) → P d → Q d)
    → All P ds
    → All Q ds
All-map [] f h = tt
All-map (d ∷ ds) f (p, ps) = (f d p, All-map ds f ps)

-- A listener that is run always has exactly one accept outstanding, whatever its constructor
-- reported and whichever accepts have failed. After any schedule it has one detector for each
-- accept that succeeded; each failure is logged, behind the line of the constructor; and each
-- detector has followed its course with the document root and the settings of the listener.
pub complete_all-accepted :
    (reported : AcceptorCall → ErrorCode) (e : Endpoint) (doc_root : Bytes) (s : Settings)
    (es : List ListenerEvent) (l : Listener)
    → complete_all es (run (new_listener reported e doc_root s)) ≡ some l
    → (l.accepts ≡ 1)
      × (length l.detectors ≡ accepted es)
      × (l.log ≡ refused es (new_listener reported e doc_root s).log)
      × All (λ d. (seen : List DetectorEvent) × Course doc_root s seen d) l.detectors
complete_all-accepted reported e doc_root s es l h =
    let v = completed_all es doc_root s 0 _ _ l (opened-Serves reported e doc_root s) h in
    (
      v.accepting,
      omega (arith, v.connections),
      v.logged,
      All-map l.detectors (λ d (seen, came). (seen, steps-Course doc_root s seen d came)) v.ran,
    )
