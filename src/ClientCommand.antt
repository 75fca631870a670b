-- ===== src/ClientCommand.antt =====
-- The program `client` (tst/c++/systemicai/http/client/api.cpp), which sends one request by the example
-- client. The JSON parser, `Poco::URI`, the SSL context and what the operations of the client report
-- are parameters.
pub mod Certificates
pub mod Ending
mod Tests
use advanced_flex_server.Common.{
  ℕ, suc, zero, ◌+◌, ◌==◌, Bool, not, List, [], ◌∷◌, Option, none, some, Bytes, codes, eq_bytes,
  c_str, if◌then◌else◌,
}
use advanced_flex_server.Errors.{ErrorCode}
use advanced_flex_server.PropertyTree.{PropertyTree}
use advanced_flex_server.ClientSettings.{Settings, load}
use advanced_flex_server.Logging.{Logging, filter_by}
use advanced_flex_server.Certificate.{
  SslContext, ContextCall, LoadError, Outcome, call, set_password_callback, set_options,
  use_certificate_chain, use_private_key, use_tmp_dh,
}
use advanced_flex_server.Client.{Client, Operation, new_client, run}
use advanced_flex_server.Client.Exchange.{complete_op}

-- What is read from an `ifstream`, also where the file cannot be opened.
unfoldable pub contents : Option Bytes → Bytes
contents none = []
contents (some text) = text

unfoldable pub load_server_certificate :
    (SslContext → ContextCall → Bool) → (Bytes → Option Bytes) → Settings → SslContext → Outcome
unfolding contents call
load_server_certificate rejects read_file s =
    let cert = contents (read_file s.ssl_certificate) in
    let key = contents (read_file s.ssl_key) in
    let dh = contents (read_file s.ssl_dh) in
    call rejects (set_password_callback "test") (
      call rejects set_options (
        call rejects (use_certificate_chain cert)
          (call rejects (use_private_key key) (call rejects (use_tmp_dh dh) (λ ctx. (ctx, none))))))

unfoldable pub set_log_filter : Settings → Logging → Bool × Logging
unfolding filter_by
set_log_filter s l = filter_by s.log_level l

-- The parts of a URI that are used. `port` is a number as `lexical_cast` writes it, 0 if the URI has no
-- port and its scheme has none.
pub record Uri : Type 0 where
  pub host : Bytes
  pub port : ℕ
  pub path : Bytes

-- How the program goes on: it prints its usage and returns EXIT_FAILURE, an exception ends it, the
-- client is still at work, or `io_context::run` has returned, and EXIT_SUCCESS is returned.
pub data Course : Type 0 where
  usage : Course
  bad_settings : Course
  bad_uri : Course
  bad_certificate : LoadError → Course
  busy : Course
  finished : Client → Course

-- The completions of the operations of a client, one after another, until none is outstanding;
-- `reports` are what they report, from the first on. `none`: the fuel is used up.
unfoldable pub io_run : (ℕ → ErrorCode × Bytes) → ℕ → ℕ → List Operation → Client → Option Client
unfolding complete_op
io_run reports i fuel [] c = some c
io_run reports i zero (op ∷ ops) c = none
io_run reports i (suc fuel) (op ∷ ops) c =
    let c' = complete_op op (reports i).0 (reports i).1 (record c { outstanding = ops }) in
    io_run reports (i + 1) fuel c'.outstanding c'

-- What the program finds. `unset` are settings as their constructor leaves them, `sni` is the error of
-- setting the host name for TLS, if any.
pub record Surroundings (p : PropertyTree) : Type 0 where
  pub to_lower : Bytes → Bytes
  pub read_json : Bytes → Option p.Tree
  pub unset : Settings
  pub parse_uri : Bytes → Option Uri
  pub print_port : ℕ → Bytes
  pub read_file : Bytes → Option Bytes
  pub rejects : SslContext → ContextCall → Bool
  pub sni : Bytes → Option ErrorCode
  pub version_string : Bytes
  pub reports : ℕ → ErrorCode × Bytes

module _ (p : PropertyTree) (w : Surroundings p) where
  open w use {
    to_lower, read_json, unset, parse_uri, print_port, read_file, rejects, sni, version_string,
    reports,
  }

  unfoldable pub port_of : Uri → Bytes
  port_of u = if not (u.port == 0) then print_port u.port else codes "443"

  -- The client that is run, with the texts as C strings.
  unfoldable pub launch_client : Uri → ℕ → Client
  unfolding port_of run new_client c_str
  launch_client u version =
      let host = c_str u.host in
      run version_string (sni host) host (c_str (port_of u)) (c_str u.path) version new_client

  -- A client has no more than six operations.
  unfoldable pub run_client : Uri → ℕ → Course
  unfolding launch_client io_run
  run_client u version =
      let c = launch_client u version in
      elim (io_run reports 0 6 c.outstanding c) [ none ↦ busy | some ended ↦ finished ended ]

  -- What follows when the certificates have been loaded, or not.
  unfoldable pub run_with : Uri → ℕ → Outcome → Course
  unfolding run_client
  run_with u version (ctx, some e) = bad_certificate e
  run_with u version (ctx, none) = run_client u version

  -- `main` with its three or four arguments, of which `threads` is not used.
  unfoldable pub main_with : Bytes → Bytes → ℕ → Logging → Course × Logging
  unfolding set_log_filter load_server_certificate run_with
  main_with path url version l = elim (read_json path) [
    | none ↦ (bad_settings, l)
    | some tree ↦
        let s = load p to_lower tree unset in
        let (_, filtered) = set_log_filter s l in
        elim (parse_uri url) [
          | none ↦ (bad_uri, filtered)
          | some u ↦ (run_with u version (load_server_certificate rejects read_file s []), filtered)
        ]
  ]

  -- `main` with `argv`.
  unfoldable pub run_main : List Bytes → Logging → Course × Logging
  unfolding main_with
  run_main (program ∷ path ∷ url ∷ threads ∷ []) l = main_with path url 11 l
  run_main (program ∷ path ∷ url ∷ threads ∷ version ∷ []) l =
      main_with path url (if eq_bytes version (codes "1.0") then 10 else 11) l
  run_main argv l = (usage, l)
