-- ===== src/ClientCommand/Tests.antt =====
-- The program of tst/c++/systemicai/http/client/api.cpp with concrete surroundings.
use advanced_flex_server.Common.{
  ◌==◌, if◌then◌else◌, ℕ, false, [], none, some, Bytes, codes, map, lower,
}
use advanced_flex_server.Errors.{ErrorCode, success, other}
use advanced_flex_server.PropertyTree.Sample.{sample_tree}
use advanced_flex_server.ClientSettings.Sample.{stored}
use advanced_flex_server.Logging.{Logging}
use advanced_flex_server.ClientCommand.{Surroundings, run_main}
use advanced_flex_server.ClientCommand.Ending.{Endings, arguments, run_main-Endings}

-- Every file can be read, and the third operation, the handshake, fails.
abbrev refused : ℕ → ErrorCode × Bytes
refused i = if i == 2 then (other 111, []) else (success, [])

abbrev surroundings : Surroundings sample_tree
surroundings = record {
  to_lower = map lower;
  read_json = λ path. some sample_tree.empty;
  unset = stored;
  parse_uri = λ url. some (record { host = codes "a.org"; port = 443; path = codes "/b" });
  print_port = λ n. codes "443";
  read_file = λ path. some path;
  rejects = λ ctx c. false;
  sni = λ host. none;
  version_string = codes "Beast";
  reports = refused;
}

abbrev no_filter : Logging
no_filter = record { filter = none; unknown = [] }

run_main-Endings_example :
    Endings sample_tree surroundings (codes "settings.json") (codes "https://a.org/b") no_filter (
      run_main sample_tree surroundings
        (arguments
          (codes "client")
          (codes "settings.json")
          (codes "https://a.org/b")
          (codes "2")
          (some (codes "1.0")))
        no_filter)
run_main-Endings_example =
    run_main-Endings sample_tree surroundings (codes "client") (codes "settings.json")
      (codes "https://a.org/b") (codes "2") (some (codes "1.0")) no_filter
