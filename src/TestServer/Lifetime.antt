-- ===== src/TestServer/Lifetime.antt =====
-- The server program of tst/c++/systemicai/http/server/server.cpp from its arguments to its return.
use advanced_flex_server.Common.{
  ℕ, ◌+◌, ◌≤◌, List, some, Bytes, ◌≡◌, ◌⊎◌, inl, inr, subst, length, ap, ◌∙◌, sym,
}
use advanced_flex_server.PropertyTree.{PropertyTree}
use advanced_flex_server.Service.{thread_count}
use advanced_flex_server.Service.Phases.{thread_count-pos}
use advanced_flex_server.TestServer.{
  Process, returned, Event, serving, listen, Surroundings, run_main, steps,
}
use advanced_flex_server.TestServer.Startup.{
  served_settings, served_certificates, Parsed, Listening, run_main-course, listening,
  listen-listening,
}
use advanced_flex_server.TestServer.Threads.{Spawned-thread_count}
use advanced_flex_server.TestServer.Shutdown.{Phase, Next, steps-ends}

module _ (p : PropertyTree) (w : Surroundings p) (path : Bytes) where
  -- How many threads serve, by this settings file.
  abbrev pub threads_of : p.Tree → ℕ
  threads_of tree = thread_count (served_settings p w path tree).thread_io

  serving_Process : (a b : Process) → serving a ≡ serving b → a ≡ b
  serving_Process a b h = cc

  Listening-serving :
      (tree : p.Tree) (address : Bytes) (first : Process)
      → Listening p w path tree address (serving first)
      → first
        ≡ listen
            (served_settings p w path tree)
            address
            (threads_of tree)
            (served_certificates p w path tree).0
  Listening-serving tree address first (inl (e, failed, h)) = cc
  Listening-serving tree address first (inr (loaded, spawned, asked, h)) =
      serving_Process _ _ h
      ∙ ap (listening p w path tree address)
          (Spawned-thread_count (served_settings p w path tree).thread_io spawned asked)
      ∙ sym (listen-listening p w path tree address)

  Parsed-serving :
      (tree : p.Tree) (first : Process)
      → Parsed p w path tree (serving first)
      → (address : Bytes) × (first
          ≡ listen
              (served_settings p w path tree)
              address
              (threads_of tree)
              (served_certificates p w path tree).0)
  Parsed-serving tree first (inl (bad, h)) = cc
  Parsed-serving tree first (inr (address, good, v)) =
      (address, Listening-serving tree address first v)

  served :
      (argc : ℕ) (first : Process)
      → run_main p w argc path ≡ serving first
      → (tree : p.Tree) × (address : Bytes) × (w.read_json path ≡ some tree)
        × (first
            ≡ listen
                (served_settings p w path tree)
                address
                (threads_of tree)
                (served_certificates p w path tree).0)
  served argc first h = elim (run_main-course p w path argc) [
    | inl (other, k) ↦ cc
    | inr (two, inl (missing, k)) ↦ cc
    | inr (two, inr (tree, read, v)) ↦
        let (address, same) = Parsed-serving tree first (subst (Parsed p w path tree) h v) in
        (tree, address, read, same)
  ]

  -- Where the server program serves, it serves with as many threads as its settings file asks for, but
  -- at least one, until a signal stops its context; then its threads return from `run`, `main` joins
  -- them, and it returns only when none is left. However the events come, there are at most two more
  -- of them than threads, and unless `main` has returned there is one that can happen next.
  pub run_main-ends :
      (argc : ℕ) (first last : Process) (es : List Event)
      → run_main p w argc path ≡ serving first
      → steps es first ≡ some last
      → (tree : p.Tree) × (w.read_json path ≡ some tree)
        × (length es ≤ threads_of tree + 2)
        × Phase (threads_of tree) last
        × ((last.main ≡ returned) ⊎ Next last)
  run_main-ends argc first last es begun h =
      let (tree, address, read, same) = served argc first begun in
      let g = served_settings p w path tree in
      let (few, phase, ahead) =
        steps-ends g address (threads_of tree) (served_certificates p w path tree).0 es last
          (thread_count-pos g.thread_io) (subst (λ t. steps es t ≡ some last) same h) in
      (tree, read, few, phase, ahead)
