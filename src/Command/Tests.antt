-- ===== src/Command/Tests.antt =====
-- The command of src/c++/systemicai/cmd/httpd.cpp with concrete surroundings.
use advanced_flex_server.Common.{ℕ, [], none, some, ◌≡◌, ◌≢◌, ◌⊎◌, refl, codes, false, map, lower}
use advanced_flex_server.Errors.{success}
use advanced_flex_server.PropertyTree.Sample.{sample_tree}
use advanced_flex_server.Logging.{Logging}
use advanced_flex_server.Command.{usage, bad_settings, Surroundings, run_main}
use advanced_flex_server.Command.Startup.{Serving, run_main-outcome}

-- Settings that ask for the level error.
abbrev error_tree : sample_tree.Tree
error_tree = sample_tree.store sample_tree.empty "service.log.level" (codes "error")

abbrev surroundings : Surroundings sample_tree
surroundings = record {
  to_lower = map lower;
  read_json = λ path. some error_tree;
  read_file = λ path. some path;
  rejects = λ ctx c. false;
  make_address = λ text. none;
  reported = λ c. success;
}

no_filter : Logging
no_filter = record { filter = none; unknown = [] }

abbrev argc : ℕ
argc = 2

info_lower : surroundings.to_lower (codes "info") ≡ codes "info"
info_lower = refl

run_main-outcome_example :
    ((argc ≢ 2)
      × (run_main sample_tree surroundings argc (codes "cfg/settings.json") no_filter
          ≡ (usage, no_filter)))
    ⊎ (argc ≡ 2)
      × (((surroundings.read_json (codes "cfg/settings.json") ≡ none)
            × (run_main sample_tree surroundings argc (codes "cfg/settings.json") no_filter
                ≡ (bad_settings, no_filter)))
          ⊎ (tree : sample_tree.Tree) × (surroundings.read_json (codes "cfg/settings.json")
              ≡ some tree)
            × Serving sample_tree surroundings
                (codes "cfg/settings.json")
                no_filter
                info_lower
                tree
                (run_main sample_tree surroundings argc (codes "cfg/settings.json") no_filter))
run_main-outcome_example =
    run_main-outcome sample_tree surroundings (codes "cfg/settings.json") no_filter info_lower argc
