-- ===== src/TestServer.antt =====
-- The server program of tst/c++/systemicai/http/server/server.cpp. It includes a header that the
-- repository does not have: of the `listener` of that header the model keeps what it is given, and
-- takes its constructor and its `run` to return. The JSON parser, `make_address` and the SSL context
-- are parameters.
pub mod Threads
pub mod Startup
pub mod Shutdown
pub mod Lifetime
mod Tests
use advanced_flex_server.Common.{
  ℕ, suc, zero, ◌+◌, ◌-◌, ◌==◌, Bool, true, false, not, List, [], ◌∷◌, Option, none, some, Bytes,
  codes, c_str, if◌then◌else◌, eq_bytes, ◌++◌, run_all,
}
use advanced_flex_server.PropertyTree.{PropertyTree}
use advanced_flex_server.ServerSettings.{Settings, load}
use advanced_flex_server.Logging.{Logging, set_filter, trace, debug, info, warning, error, fatal}
use advanced_flex_server.Certificate.{
  SslContext, ContextCall, LoadError, Outcome, call, set_password_callback, set_options,
  use_certificate_chain, use_private_key, use_tmp_dh,
}
use advanced_flex_server.Service.{thread_count}

-- What is read from an `ifstream`, also where the file cannot be opened.
unfoldable pub text_of : Option Bytes → Bytes
text_of none = []
text_of (some text) = text

unfoldable pub load_server_certificate :
    (SslContext → ContextCall → Bool) → (Bytes → Option Bytes) → Settings → SslContext → Outcome
unfolding text_of call
load_server_certificate rejects read_file s =
    let cert = text_of (read_file s.ssl_certificate) in
    let key = text_of (read_file s.ssl_key) in
    let dh = text_of (read_file s.ssl_dh) in
    call rejects (set_password_callback "test") (
      call rejects set_options (
        call rejects (use_certificate_chain cert)
          (call rejects (use_private_key key) (call rejects (use_tmp_dh dh) (λ ctx. (ctx, none))))))

-- `main` does not call it.
unfoldable pub set_log_filter : Settings → Logging → Bool × Logging
set_log_filter s l =
    if eq_bytes s.log_level (codes "trace")
    then set_filter trace l
    else if eq_bytes s.log_level (codes "info")
    then set_filter info l
    else if eq_bytes s.log_level (codes "debug")
    then set_filter debug l
    else if eq_bytes s.log_level (codes "warning")
    then set_filter warning l
    else if eq_bytes s.log_level (codes "error")
    then set_filter error l
    else if eq_bytes s.log_level (codes "fatal")
    then set_filter fatal l
    else (false, record l { unknown = l.unknown ++ s.log_level ∷ [] })

-- What the listener is given, but for the contexts.
pub record ListenerArguments : Type 0 where
  pub address : Bytes
  pub port : ℕ
  pub doc_root : Bytes

-- The thread of `main`: in the `run` of the context, joining the threads, or returned.
pub data Main : Type 0 where
  in_run joining returned : Main

-- `pool` counts the spawned threads that have not exited, `signal_waits` the outstanding waits for a
-- signal.
pub record Process : Type 0 where
  pub ssl : SslContext
  pub listener : ListenerArguments
  pub signal_waits : ℕ
  pub stopped : Bool
  pub pool : ℕ
  pub main : Main

-- How the program goes on: it prints its usage and returns EXIT_FAILURE, an exception ends it, or it
-- serves.
pub data Course : Type 0 where
  usage : Course
  bad_settings : Course
  bad_address : Course
  bad_certificate : LoadError → Course
  serving : Process → Course

-- The loop that spawns the threads.
unfoldable pub spawn : ℕ → Process → Process
spawn zero p = p
spawn (suc i) p = spawn i (record p { pool = p.pool + 1 })

-- From the listener on, up to the `run` of the context by `main`.
unfoldable pub listen : Settings → Bytes → ℕ → SslContext → Process
unfolding spawn
listen g address threads ctx = spawn (threads - 1) (record {
  ssl = ctx;
  listener = record { address = address; port = g.interface_port; doc_root = g.document_root };
  signal_waits = 1;
  stopped = false;
  pool = 0;
  main = in_run;
})

-- What follows when the certificates have been loaded, or not.
unfoldable pub serve_on : Settings → Bytes → ℕ → Outcome → Course
unfolding listen
serve_on g address threads (ctx, some e) = bad_certificate e
serve_on g address threads (ctx, none) = serving (listen g address threads ctx)

-- What the program finds: the settings file, as far as it can be read and parsed, and the rest.
pub record Surroundings (p : PropertyTree) : Type 0 where
  pub to_lower : Bytes → Bytes
  pub read_json : Bytes → Option p.Tree
  pub read_file : Bytes → Option Bytes
  pub rejects : SslContext → ContextCall → Bool
  pub make_address : Bytes → Option Bytes

-- `main`, with the number of arguments and the path, up to the point where it blocks.
unfoldable pub run_main : (p : PropertyTree) → Surroundings p → ℕ → Bytes → Course
unfolding serve_on load_server_certificate
run_main p w argc path = if not (argc == 2) then usage else elim (w.read_json path) [
  | none ↦ bad_settings
  | some tree ↦
      let g = load p w.to_lower tree in
      elim (w.make_address (c_str g.interface_address)) [
        | none ↦ bad_address
        | some address ↦
            serve_on g address (thread_count g.thread_io)
              (load_server_certificate w.rejects w.read_file g [])
      ]
]

-- SIGINT or SIGTERM; a spawned thread returns from `run`, or `main` does; `main` has joined all threads
-- and returns EXIT_SUCCESS.
pub data Event : Type 0 where
  signals thread_exits main_exits joined : Event

-- The handler of the signals stops the context.
unfoldable pub on_signal : ℕ → Process → Option Process
on_signal zero p = none
on_signal (suc n) p = some (record p { signal_waits = n; stopped = true })

-- `run` returns once the context is stopped: there is a wait for a signal until then.
unfoldable pub exit_thread : ℕ → Process → Option Process
exit_thread zero p = none
exit_thread (suc n) p = if p.stopped then some (record p { pool = n }) else none

unfoldable pub exit_main : Main → Process → Option Process
exit_main in_run p = if p.stopped then some (record p { main = joining }) else none
exit_main other p = none

unfoldable pub finish : Main → ℕ → Process → Option Process
finish joining zero p = some (record p { main = returned })
finish other n p = none

-- `none`: the step is not possible.
unfoldable pub step : Event → Process → Option Process
unfolding on_signal exit_thread exit_main finish
step signals p = on_signal p.signal_waits p
step thread_exits p = exit_thread p.pool p
step main_exits p = exit_main p.main p
step joined p = finish p.main p.pool p

abbrev pub steps : List Event → Process → Option Process
steps es p = run_all step es p
