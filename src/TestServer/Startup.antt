-- ===== src/TestServer/Startup.antt =====
-- How the server program of tst/c++/systemicai/http/server/server.cpp starts up, and how its
-- `set_log_filter` and `load_server_certificate` compare with those of the other programs.
use advanced_flex_server.Common.{
  ℕ, ◌-◌, false, sym, ap, ◌∙◌, ◌==◌, ◌≢◌, ◌⊎◌, inl, inr, Option-cases, Bool-cases, [], none, some,
  Bytes, c_str, ◌≡◌, refl, arith, Option, Bool,
}
use advanced_flex_server.PropertyTree.{PropertyTree}
use advanced_flex_server.ServerSettings.{Settings, load}
use advanced_flex_server.Certificate.{Outcome, LoadError, SslContext, ContextCall, call}
use advanced_flex_server.Certificate.Loading.{loading, call_all}
use advanced_flex_server.Logging.{Logging, filter_by}
use advanced_flex_server.Logging.Levels.{levels, lookup, filtered, filter_by-lookup}
use advanced_flex_server.Service.{thread_count}
use advanced_flex_server.Command as Command
use advanced_flex_server.Command.Startup.{set_log_filter-lookup}
use advanced_flex_server.TestServer.Threads.{Spawned, thread_count-Spawned, spawn_lem}
use advanced_flex_server.TestServer.{
  text_of, load_server_certificate, set_log_filter, Course, usage, bad_settings, bad_address,
  bad_certificate, serving, listen, serve_on, Process, in_run, Surroundings, run_main,
}

-- The calls on the context are those of `load`, with another answer to the password callback, and
-- with an empty text for a file that cannot be opened.
pub load_server_certificate-call_all :
    (rejects : SslContext → ContextCall → Bool) (read_file : Bytes → Option Bytes) (s : Settings)
    (ctx : SslContext)
    → load_server_certificate rejects read_file s ctx
      ≡ call_all rejects
          (loading "test"
            (text_of (read_file s.ssl_certificate))
            (text_of (read_file s.ssl_key))
            (text_of (read_file s.ssl_dh)))
          ctx
unfolding load_server_certificate call_all call
load_server_certificate-call_all rejects read_file s ctx = refl

-- The command and the server program set the filter of the log alike: to the level whose name the
-- settings have, and true is returned; for a name that is not in the table the filter stays as it
-- was, the name is reported, and false is returned.
pub set_log_filters-lookup :
    (s : Settings) (l : Logging)
    → (Command.set_log_filter s l ≡ filtered s.log_level l (lookup s.log_level levels))
      × (set_log_filter s l ≡ filtered s.log_level l (lookup s.log_level levels))
unfolding set_log_filter filter_by
set_log_filters-lookup s l = (set_log_filter-lookup s l, filter_by-lookup s.log_level l)

module _ (p : PropertyTree) (w : Surroundings p) (path : Bytes) where
  -- The settings of a file, and its certificates.
  abbrev pub served_settings : p.Tree → Settings
  served_settings tree = load p w.to_lower tree

  abbrev pub served_certificates : p.Tree → Outcome
  served_certificates tree =
      let s = served_settings tree in
      call_all w.rejects
        (loading "test" (text_of (w.read_file s.ssl_certificate)) (text_of (w.read_file s.ssl_key))
          (text_of (w.read_file s.ssl_dh)))
        []

  -- The process before a signal, with the listener for this address and so many spawned threads.
  abbrev pub listening : p.Tree → Bytes → ℕ → Process
  listening tree address spawned = record {
    ssl = (served_certificates tree).0;
    listener = record {
      address = address;
      port = (served_settings tree).interface_port;
      doc_root = (served_settings tree).document_root;
    };
    signal_waits = 1;
    stopped = false;
    pool = spawned;
    main = in_run;
  }

  -- How the program goes on at this address.
  abbrev pub Listening : p.Tree → Bytes → Course → Type 0
  Listening tree address course =
      ((e : LoadError) × ((served_certificates tree).1 ≡ some e) × (course ≡ bad_certificate e))
      ⊎ ((served_certificates tree).1 ≡ none)
        × (spawned : ℕ) × Spawned (served_settings tree).thread_io spawned
        × (course ≡ serving (listening tree address spawned))

  -- How it goes on with this settings file.
  abbrev pub Parsed : p.Tree → Course → Type 0
  Parsed tree course =
      ((w.make_address (c_str (served_settings tree).interface_address) ≡ none)
        × (course ≡ bad_address))
      ⊎ (address : Bytes) × (w.make_address (c_str (served_settings tree).interface_address)
          ≡ some address)
        × Listening tree address course

  -- What the code has once it serves.
  pub listen-listening :
      (tree : p.Tree) (address : Bytes)
      → listen
          (served_settings tree)
          address
          (thread_count (served_settings tree).thread_io)
          (served_certificates tree).0
        ≡ listening tree address (thread_count (served_settings tree).thread_io - 1)
  unfolding listen
  listen-listening tree address =
      spawn_lem (thread_count (served_settings tree).thread_io - 1) (listening tree address 0)
      ∙ ap (listening tree address) (omega arith)

  certificates_lem :
      (tree : p.Tree)
      → load_server_certificate w.rejects w.read_file (served_settings tree) []
        ≡ served_certificates tree
  certificates_lem tree =
      load_server_certificate-call_all w.rejects w.read_file (served_settings tree) []

  serve_on-Listening :
      (tree : p.Tree) (address : Bytes) (ctx : SslContext) (error : Option LoadError)
      → served_certificates tree ≡ (ctx, error)
      → Listening tree address (
          serve_on
            (served_settings tree)
            address
            (thread_count (served_settings tree).thread_io)
            (ctx, error))
  unfolding serve_on
  serve_on-Listening tree address ctx none e = inr (
    ap (λ o. o.1) e,
    thread_count (served_settings tree).thread_io - 1,
    thread_count-Spawned (served_settings tree).thread_io,
    ap
          (λ o. serving (
            listen (served_settings tree) address (thread_count (served_settings tree).thread_io)
              o))
          (sym (ap (λ o. o.0) e))
        ∙ ap serving (listen-listening tree address),
  )
  serve_on-Listening tree address ctx (some thrown) e = inl (thrown, ap (λ o. o.1) e, refl)

  run_main-unread : w.read_json path ≡ none → run_main p w 2 path ≡ bad_settings
  unfolding run_main
  run_main-unread missing = rw missing refl

  module _ (tree : p.Tree) (read : w.read_json path ≡ some tree) where
    unreachable :
        w.make_address (c_str (served_settings tree).interface_address) ≡ none
        → run_main p w 2 path ≡ bad_address
    unfolding run_main
    unreachable bad = rw (read, bad) refl

    run_main-serve_on :
        (address : Bytes)
        → w.make_address (c_str (served_settings tree).interface_address) ≡ some address
        → run_main p w 2 path
          ≡ serve_on
              (served_settings tree)
              address
              (thread_count (served_settings tree).thread_io)
              (served_certificates tree)
    unfolding run_main
    run_main-serve_on address good = rw (read, good, certificates_lem tree) refl

    run_main-Parsed : Parsed tree (run_main p w 2 path)
    run_main-Parsed =
        elim (Option-cases (w.make_address (c_str (served_settings tree).interface_address))) [
          | inl bad ↦ inl (bad, unreachable bad)
          | inr (address, good) ↦ inr (
            address,
            good,
            rw (run_main-serve_on address good) (
                serve_on-Listening tree address (served_certificates tree).0
                  (served_certificates tree).1 refl),
          )
        ]

  -- Every way in which the server program starts. Without exactly one argument it shows its usage.
  -- Where the settings file cannot be read or parsed, its address is not valid, or a call that loads
  -- the certificates is rejected, it ends by the exception, of the first of these. Otherwise the
  -- calls on the context are those of `load`, the listener is given the address, the port and the
  -- document root of the file, one wait for a signal is outstanding, and `main` runs the context with
  -- the threads that it has spawned: as many run it as the file asks for, but at least one.
  pub run_main-course :
      (argc : ℕ)
      → ((argc ≢ 2) × (run_main p w argc path ≡ usage))
        ⊎ (argc ≡ 2)
          × (((w.read_json path ≡ none) × (run_main p w argc path ≡ bad_settings))
              ⊎ (tree : p.Tree) × (w.read_json path ≡ some tree)
                × Parsed tree (run_main p w argc path))
  unfolding run_main
  run_main-course argc = elim (Bool-cases (argc == 2)) [
    | inr other ↦ inl (ground arith, rw other refl)
    | inl one ↦
        let two : argc ≡ 2 = ground arith in
        rw two (
          inr (
            refl,
            elim (Option-cases (w.read_json path)) [
              | inl missing ↦ inl (missing, run_main-unread missing)
              | inr (tree, read) ↦ inr (tree, read, run_main-Parsed tree read)
            ],
          ))
  ]
