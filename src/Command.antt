-- ===== src/Command.antt =====
-- The command (src/c++/systemicai/cmd/httpd.cpp). The JSON parser and what the service and the
-- certificates depend on are parameters.
pub mod Startup
mod Tests
use advanced_flex_server.Common.{
  ℕ, ◌==◌, Bool, true, false, not, List, [], ◌∷◌, ◌++◌, Option, none, some, Bytes, codes, eq_bytes,
  if◌then◌else◌,
}
use advanced_flex_server.Errors.{ErrorCode}
use advanced_flex_server.PropertyTree.{PropertyTree}
use advanced_flex_server.ServerSettings.{Settings, load}
use advanced_flex_server.Listener.{AcceptorCall}
use advanced_flex_server.Logging.{Logging, filter_by}
use advanced_flex_server.Certificate.{SslContext, ContextCall, LoadError, Outcome, load_files}
use advanced_flex_server.Service.{Service, new_service, start}

unfoldable pub set_log_filter : Settings → Logging → Bool × Logging
unfolding filter_by
set_log_filter s l = filter_by s.log_level l

-- How the program goes on: it prints its usage and returns EXIT_FAILURE, an exception ends it, or the
-- service has been started, on an SSL context.
pub data Course : Type 0 where
  usage : Course
  bad_settings : Course
  bad_certificate : LoadError → Course
  started : SslContext → Service → Course

-- What the program finds: the settings file, as far as it can be read and parsed, and the rest.
pub record Surroundings (p : PropertyTree) : Type 0 where
  pub to_lower : Bytes → Bytes
  pub read_json : Bytes → Option p.Tree
  pub read_file : Bytes → Option Bytes
  pub rejects : SslContext → ContextCall → Bool
  pub make_address : Bytes → Option Bytes
  pub reported : AcceptorCall → ErrorCode

module _ (p : PropertyTree) (w : Surroundings p) where
  open w use {to_lower, read_json, read_file, rejects, make_address, reported}

  -- `settings::globals()`, before anything is loaded into it.
  unfoldable pub globals : Settings
  globals = load p to_lower p.empty

  -- What follows when the certificates have been loaded, or not.
  unfoldable pub serve_with : Settings → Outcome → Course
  serve_with g (ctx, some e) = bad_certificate e
  serve_with g (ctx, none) = started ctx (start make_address reported (new_service g))

  -- `main`, with the number of arguments and the path; the log starts without a filter.
  unfoldable pub run_main : ℕ → Bytes → Logging → Course × Logging
  unfolding globals serve_with
  run_main argc path l = if not (argc == 2) then (usage, l) else elim (read_json path) [
    | none ↦ (bad_settings, l)
    | some tree ↦
        let (_, filtered) = set_log_filter globals l in
        let g = load p to_lower tree in
        let outcome = load_files rejects read_file g.ssl_certificate g.ssl_key g.ssl_dh [] in
        (serve_with g outcome, filtered)
  ]
