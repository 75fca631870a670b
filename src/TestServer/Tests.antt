-- ===== src/TestServer/Tests.antt =====
-- The server program of tst/c++/systemicai/http/server/server.cpp with concrete surroundings.
use advanced_flex_server.Common.{
  ℕ, ◌+◌, ◌≤◌, List, [], ◌∷◌, Option, none, some, ◌≡◌, ◌≢◌, ◌⊎◌, refl, codes, false, map, lower,
  pos, length, run_all,
}
use advanced_flex_server.PropertyTree.Sample.{sample_tree}
use advanced_flex_server.ServerSettings.{load}
use advanced_flex_server.ServerSettings.Sample.{default_settings}
use advanced_flex_server.Service.{thread_count}
use advanced_flex_server.TestServer.{
  serving, serve_on, load_server_certificate, text_of, Process, returned, Event, signals,
  thread_exits, main_exits, usage, bad_settings, Surroundings, spawn, listen, run_main, step, steps,
  on_signal, exit_thread, exit_main, finish,
}
use advanced_flex_server.TestServer.Startup.{Parsed, run_main-course}
use advanced_flex_server.TestServer.Lifetime.{threads_of, run_main-ends}
use advanced_flex_server.Certificate.{
  set_password_callback, set_options, use_certificate_chain, use_private_key, use_tmp_dh, call,
}
use advanced_flex_server.TestServer.Shutdown.{Phase, Next}

abbrev surroundings : Surroundings sample_tree
surroundings = record {
  to_lower = map lower;
  read_json = λ path.
      some (sample_tree.store sample_tree.empty "service.thread.io" (sample_tree.print_ℤ (pos 3)));
  read_file = λ path. none;
  rejects = λ ctx c. false;
  make_address = λ text. some (127 ∷ 0 ∷ 0 ∷ 1 ∷ []);
}

abbrev argc : ℕ
argc = 2

run_main-course_example :
    ((argc ≢ 2) × (run_main sample_tree surroundings argc (codes "cfg/settings.json") ≡ usage))
    ⊎ (argc ≡ 2)
      × (((surroundings.read_json (codes "cfg/settings.json") ≡ none)
            × (run_main sample_tree surroundings argc (codes "cfg/settings.json") ≡ bad_settings))
          ⊎ (tree : sample_tree.Tree) × (surroundings.read_json (codes "cfg/settings.json")
              ≡ some tree)
            × Parsed sample_tree surroundings
                (codes "cfg/settings.json")
                tree
                (run_main sample_tree surroundings argc (codes "cfg/settings.json")))
run_main-course_example = run_main-course sample_tree surroundings (codes "cfg/settings.json") argc

-- What it serves with.
at_first : Process
unfolding listen spawn thread_count
at_first =
    listen (record default_settings { thread_io = pos 3 }) (127 ∷ 0 ∷ 0 ∷ 1 ∷ []) 3
      (set_password_callback "test"
        ∷ set_options
        ∷ use_certificate_chain []
        ∷ use_private_key []
        ∷ use_tmp_dh []
        ∷ [])

serves_first : run_main sample_tree surroundings argc (codes "cfg/settings.json") ≡ serving at_first
unfolding at_first run_main serve_on load_server_certificate call text_of thread_count load listen
    spawn
serves_first = refl

-- A signal comes, `main` returns from `run`, then one of the two other threads.
abbrev interrupted : List Event
interrupted = signals ∷ main_exits ∷ thread_exits ∷ []

abbrev or_first : Option Process → Process
or_first none = at_first
or_first (some p) = p

after_interrupt : Process
unfolding at_first run_all step on_signal exit_thread exit_main finish
after_interrupt = or_first (steps interrupted at_first)

after_interrupt_lem : steps interrupted at_first ≡ some after_interrupt
unfolding after_interrupt at_first run_all step on_signal exit_thread exit_main finish
after_interrupt_lem = refl

run_main-ends_example :
    (tree : sample_tree.Tree) × (surroundings.read_json (codes "cfg/settings.json") ≡ some tree)
    × (length interrupted
        ≤ threads_of sample_tree surroundings (codes "cfg/settings.json") tree + 2)
    × Phase (threads_of sample_tree surroundings (codes "cfg/settings.json") tree) after_interrupt
    × ((after_interrupt.main ≡ returned) ⊎ Next after_interrupt)
run_main-ends_example =
    run_main-ends sample_tree surroundings (codes "cfg/settings.json") argc at_first after_interrupt
      interrupted serves_first after_interrupt_lem
