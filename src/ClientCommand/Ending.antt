-- ===== src/ClientCommand/Ending.antt =====
-- How the program of tst/c++/systemicai/http/client/api.cpp ends.
use advanced_flex_server.Common.{
  ℕ, zero, suc, ◌+◌, ◌≤◌, List, [], ◌∷◌, Option, none, some, Bytes, codes, eq_bytes, ◌≡◌, ap, ◌⊎◌,
  inl, inr, refl, arith, Option-cases, run_all, if◌then◌else◌,
}
use advanced_flex_server.Errors.{ErrorCode}
use advanced_flex_server.PropertyTree.{PropertyTree}
use advanced_flex_server.ClientSettings.{Settings, load}
use advanced_flex_server.Logging.{Logging}
use advanced_flex_server.Logging.Levels.{levels, lookup, filtered, filter_by-lookup}
use advanced_flex_server.Certificate.{Outcome, LoadError}
use advanced_flex_server.Certificate.Loading.{loading, call_all}
use advanced_flex_server.ClientCommand.Certificates.{load_server_certificate-calls}
use advanced_flex_server.Client.{Client, Operation}
use advanced_flex_server.Client.Exchange.{
  complete_op, complete, UnderWay, Ended, completed, complete_all-outcome,
}
use advanced_flex_server.Client.Termination.{steps_left, run-few, complete-falls}
use advanced_flex_server.ClientCommand.{
  Uri, io_run, Course, bad_settings, bad_uri, bad_certificate, finished, Surroundings, contents,
  launch_client, run_client, run_with, main_with, run_main, set_log_filter, load_server_certificate,
}

-- With fuel for the steps that are left, a client that is under way comes to its end.
io_run-ends :
    (reports : ℕ → ErrorCode × Bytes) (i fuel : ℕ) (ops : List Operation) (c : Client)
    → c.outstanding ≡ ops
    → UnderWay c ⊎ Ended c
    → steps_left ops ≤ fuel
    → (c' : Client) × (io_run reports i fuel ops c ≡ some c') × Ended c'
unfolding io_run complete
io_run-ends reports i fuel [] c e (inl (op, one, _, _, _)) enough = ground arith
io_run-ends reports i fuel [] c e (inr over) enough = (c, refl, over)
io_run-ends reports i zero (op ∷ ops) c e v enough =
    let falls = complete-falls (op ∷ ops) (reports i).0 (reports i).1 c _ e v refl in
    absurd (omega (arith, falls, ap steps_left e, enough))
io_run-ends reports i (suc fuel) (op ∷ ops) c e v enough =
    let c' = complete_op op (reports i).0 (reports i).1 (record c { outstanding = ops }) in
    let falls = complete-falls (op ∷ ops) (reports i).0 (reports i).1 c c' e v refl in
    let v' = completed (op ∷ ops) (reports i).0 (reports i).1 c c' e v refl in
    io_run-ends reports (i + 1) fuel c'.outstanding c' refl v'
      (omega (arith, falls, ap steps_left e, enough))

-- The arguments, with the version or without.
abbrev pub arguments : Bytes → Bytes → Bytes → Bytes → Option Bytes → List Bytes
arguments program path url threads none = program ∷ path ∷ url ∷ threads ∷ []
arguments program path url threads (some version) = program ∷ path ∷ url ∷ threads ∷ version ∷ []

module _ (p : PropertyTree) (w : Surroundings p) where
  run_client-ends :
      (u : Uri) (version : ℕ) → (c : Client) × (run_client p w u version ≡ finished c) × Ended c
  unfolding run_client launch_client run_all
  run_client-ends u version =
      let c = launch_client p w u version in
      let v = complete_all-outcome w.version_string _ _ _ _ version [] c refl in
      let few = run-few w.version_string _ _ _ _ version in
      let (c', ran, ended) = io_run-ends w.reports 0 6 c.outstanding c refl v few in
      (c', rw (ran, run_client) refl, ended)

  -- What `main` goes by: the settings of the file, the log when their level has been set, and the
  -- certificates.
  abbrev pub client_settings : p.Tree → Settings
  client_settings tree = load p w.to_lower tree w.unset

  abbrev pub client_logging : p.Tree → Logging → Logging
  client_logging tree l =
      let name = (client_settings tree).log_level in (filtered name l (lookup name levels)).1

  abbrev pub client_certificates : p.Tree → Outcome
  client_certificates tree =
      let s = client_settings tree in
      call_all w.rejects
        (loading "test" (contents (w.read_file s.ssl_certificate))
          (contents (w.read_file s.ssl_key)) (contents (w.read_file s.ssl_dh)))
        []

  -- The log and the certificates of the code are these.
  logging_lem :
      (tree : p.Tree) (l : Logging)
      → (set_log_filter (client_settings tree) l).1 ≡ client_logging tree l
  unfolding set_log_filter
  logging_lem tree l = ap (λ r. r.1) (filter_by-lookup (client_settings tree).log_level l)

  certificates_lem :
      (tree : p.Tree)
      → load_server_certificate w.rejects w.read_file (client_settings tree) []
        ≡ client_certificates tree
  certificates_lem tree =
      load_server_certificate-calls w.rejects w.read_file (client_settings tree) []

  -- How the program goes on with these certificates, and with this log.
  abbrev pub Requesting : Outcome → Logging → Course × Logging → Type 0
  Requesting certificates lg outcome =
      ((e : LoadError) × (certificates.1 ≡ some e) × (outcome ≡ (bad_certificate e, lg)))
      ⊎ (certificates.1 ≡ none) × (c : Client) × (outcome ≡ (finished c, lg)) × Ended c

  run_with-Requesting :
      (u : Uri) (version : ℕ) (certificates : Outcome) (lg : Logging)
      → Requesting certificates lg (run_with p w u version certificates, lg)
  unfolding run_with
  run_with-Requesting u version (ctx, some e) lg = inl (e, refl, refl)
  run_with-Requesting u version (ctx, none) lg =
      let (c, ran, ended) = run_client-ends u version in inr (refl, c, rw ran refl, ended)

  module _ (path url : Bytes) (l : Logging) where
    -- Every way in which `main` goes on with a settings file and a URI.
    abbrev pub Endings : Course × Logging → Type 0
    Endings outcome =
        ((w.read_json path ≡ none) × (outcome ≡ (bad_settings, l)))
        ⊎ (tree : p.Tree) × (w.read_json path ≡ some tree)
          × (((w.parse_uri url ≡ none) × (outcome ≡ (bad_uri, client_logging tree l)))
              ⊎ (u : Uri) × (w.parse_uri url ≡ some u)
                × Requesting (client_certificates tree) (client_logging tree l) outcome)

    unread :
        (version : ℕ)
        → w.read_json path ≡ none
        → main_with p w path url version l ≡ (bad_settings, l)
    unfolding main_with
    unread version missing = rw (missing, main_with) refl

    module _ (version : ℕ) (tree : p.Tree) (read : w.read_json path ≡ some tree) where
      malformed :
          w.parse_uri url ≡ none
          → main_with p w path url version l ≡ (bad_uri, client_logging tree l)
      unfolding main_with
      malformed bad = rw (← logging_lem tree l, read, bad, main_with) refl

      requested :
          (u : Uri)
          → w.parse_uri url ≡ some u
          → main_with p w path url version l
            ≡ (run_with p w u version (client_certificates tree), client_logging tree l)
      unfolding main_with
      requested u parsed =
          rw (← logging_lem tree l, ← certificates_lem tree, read, parsed, main_with) refl

    main_with-Endings : (version : ℕ) → Endings (main_with p w path url version l)
    main_with-Endings version = elim (Option-cases (w.read_json path)) [
      | inl missing ↦ inl (missing, unread version missing)
      | inr (tree, read) ↦ elim (Option-cases (w.parse_uri url)) [
        | inl bad ↦ inr (tree, read, inl (bad, malformed version tree read bad))
        | inr (u, parsed) ↦
            let goes_on =
              run_with-Requesting u version (client_certificates tree) (client_logging tree l) in
            inr (tree, read, inr (u, parsed, rw (requested version tree read u parsed) goes_on))
      ]
    ]

  -- With three or four arguments, each ending of the program: where the settings file cannot be read
  -- or parsed, the URI is malformed, or a call that loads the certificates is rejected, it ends by
  -- the exception; otherwise the client has run to its end, whatever its operations report, and
  -- EXIT_SUCCESS is returned, also where the client has logged a failure. From the parsed file on,
  -- the log has the filter of the level that the file names; for a name that is not in the table of
  -- levels it stays as it was, and the name is reported. The calls on the context are those of
  -- `load` with the contents of the files, an empty text for one that cannot be opened.
  pub run_main-Endings :
      (program path url threads : Bytes) (version : Option Bytes) (l : Logging)
      → Endings path url l (run_main p w (arguments program path url threads version) l)
  unfolding run_main
  run_main-Endings program path url threads none l = main_with-Endings path url l 11
  run_main-Endings program path url threads (some version) l =
      main_with-Endings path url l (if eq_bytes version (codes "1.0") then 10 else 11)
