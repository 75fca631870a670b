-- ===== src/Command/Startup.antt =====
-- How the command of src/c++/systemicai/cmd/httpd.cpp starts up.
use advanced_flex_server.Common.{
  is_path, ℕ, ◌==◌, ◌≢◌, ◌⊎◌, inl, inr, Option-cases, Bool-cases, true, [], none, some, Bytes,
  codes, ◌≡◌, refl, arith, ap,
}
use advanced_flex_server.PropertyTree.{PropertyTree}
use advanced_flex_server.ServerSettings.{Settings, load}
use advanced_flex_server.Certificate.{load_files, Outcome, LoadError, SslContext}
use advanced_flex_server.Service.{new_service, start}
use advanced_flex_server.Logging.{info, Logging}
use advanced_flex_server.Logging.Levels.{levels, lookup, filtered, filter_by-lookup, filter_by-info}
use advanced_flex_server.Command.{
  set_log_filter, Course, usage, bad_settings, bad_certificate, started, Surroundings, globals,
  run_main, serve_with,
}

globals-info :
    (p : PropertyTree) (w : Surroundings p)
    → w.to_lower (codes "info") ≡ codes "info"
    → (globals p w).log_level ≡ codes "info"
unfolding globals load is_path
globals-info p w low = rw (p.find-empty "service.log.level" refl) low

-- The settings of a file, and its certificates.
abbrev pub file_settings : (p : PropertyTree) → Surroundings p → p.Tree → Settings
file_settings p w tree = load p w.to_lower tree

abbrev pub file_certificates : (p : PropertyTree) → Surroundings p → p.Tree → Outcome
file_certificates p w tree =
    let g = file_settings p w tree in
    load_files w.rejects w.read_file g.ssl_certificate g.ssl_key g.ssl_dh []

info_filter :
    (s : Settings) (l : Logging)
    → s.log_level ≡ codes "info"
    → set_log_filter s l ≡ (true, record l { filter = some info })
unfolding set_log_filter
info_filter s l e = filter_by-info s.log_level l e

serve_with-none :
    (p : PropertyTree) (w : Surroundings p) (g : Settings) (outcome : Outcome) (ctx : SslContext)
    → outcome ≡ (ctx, none)
    → serve_with p w g outcome ≡ started ctx (start w.make_address w.reported (new_service g))
unfolding serve_with
serve_with-none p w g outcome ctx e = rw e refl

-- With one argument, a settings file that can be parsed, and certificates that can be loaded, the
-- service is started with the settings of the file and the context that its certificates give; but
-- the log filter is set to info, whatever level the file asks for. The word info is in lower case.
pub run_main-started :
    (p : PropertyTree) (w : Surroundings p) (path : Bytes) (l : Logging) (tree : p.Tree)
    (ctx : SslContext)
    → w.read_json path ≡ some tree
    → w.to_lower (codes "info") ≡ codes "info"
    → file_certificates p w tree ≡ (ctx, none)
    → run_main p w 2 path l ≡ (
      started ctx (start w.make_address w.reported (new_service (file_settings p w tree))),
      record l { filter = some info },
    )
unfolding run_main
run_main-started p w path l tree ctx parsed low loaded =
    rw (parsed, info_filter (globals p w) l (globals-info p w low))
      (ap (λ (c : Course). (c, record l { filter = some info }))
        (serve_with-none p w (file_settings p w tree) _ ctx loaded))

module _ (p : PropertyTree) (w : Surroundings p) (path : Bytes) (l : Logging)
    (low : w.to_lower (codes "info") ≡ codes "info") where
  -- The log when the settings have been read.
  abbrev pub logging_info : Logging
  logging_info = record l { filter = some info }

  -- How the program goes on with these certificates.
  abbrev pub Serving : p.Tree → Course × Logging → Type 0
  Serving tree outcome =
      ((e : LoadError) × ((file_certificates p w tree).1 ≡ some e)
        × (outcome ≡ (bad_certificate e, logging_info)))
      ⊎ ((file_certificates p w tree).1 ≡ none)
        × (outcome ≡ (
          started (file_certificates p w tree).0
              (start w.make_address w.reported (new_service (file_settings p w tree))),
          logging_info,
        ))

  parsed_course :
      (tree : p.Tree) (outcome : Outcome)
      → file_certificates p w tree ≡ outcome
      → Serving tree (serve_with p w (file_settings p w tree) outcome, logging_info)
  unfolding serve_with
  parsed_course tree (ctx, none) e = rw e (inr (refl, refl))
  parsed_course tree (ctx, some thrown) e = rw e (inl (thrown, refl, refl))

  run_main-parsed :
      (tree : p.Tree)
      → w.read_json path ≡ some tree
      → run_main p w 2 path l
        ≡ (serve_with p w (file_settings p w tree) (file_certificates p w tree), logging_info)
  unfolding run_main
  run_main-parsed tree parsed = rw (parsed, info_filter (globals p w) l (globals-info p w low)) refl

  unreadable : w.read_json path ≡ none → run_main p w 2 path l ≡ (bad_settings, l)
  unfolding run_main
  unreadable none_read = rw none_read refl

  with_path :
      ((w.read_json path ≡ none) × (run_main p w 2 path l ≡ (bad_settings, l)))
      ⊎ (tree : p.Tree) × (w.read_json path ≡ some tree) × Serving tree (run_main p w 2 path l)
  with_path = elim (Option-cases (w.read_json path)) [
    | inl none_read ↦ inl (none_read, unreadable none_read)
    | inr (tree, parsed) ↦ inr (
      tree,
      parsed,
      rw (run_main-parsed tree parsed) (parsed_course tree (file_certificates p w tree) refl),
    )
  ]

  -- Every way in which the program starts. Without exactly one argument it shows its usage; where
  -- the settings file cannot be read or parsed, or a certificate cannot be loaded, it ends by the
  -- exception; otherwise the service is started with the settings of the file and the context that
  -- its certificates give. Once the file has been parsed the log filter is info, whatever level the
  -- file asks for. The word info is in lower case.
  pub run_main-outcome :
      (argc : ℕ)
      → ((argc ≢ 2) × (run_main p w argc path l ≡ (usage, l)))
        ⊎ (argc ≡ 2)
          × (((w.read_json path ≡ none) × (run_main p w argc path l ≡ (bad_settings, l)))
              ⊎ (tree : p.Tree) × (w.read_json path ≡ some tree)
                × Serving tree (run_main p w argc path l))
  unfolding run_main
  run_main-outcome argc = elim (Bool-cases (argc == 2)) [
    | inr other ↦ inl (ground arith, rw other refl)
    | inl one ↦ let two : argc ≡ 2 = ground arith in inr (two, rw two with_path)
  ]

-- The filter of the log is set to the level whose name the settings have, and true is returned; for a
-- name that is not in the table the filter stays as it was, the name is reported, and false is
-- returned.
pub set_log_filter-lookup :
    (s : Settings) (l : Logging)
    → set_log_filter s l ≡ filtered s.log_level l (lookup s.log_level levels)
unfolding set_log_filter
set_log_filter-lookup s l = filter_by-lookup s.log_level l
