-- ===== src/ClientSettings/Tests.antt =====
-- The settings of src/c++/systemicai/http/client/settings.h at concrete values.
use advanced_flex_server.Common.{map, lower, ◌≡◌, refl, arith}
use advanced_flex_server.PropertyTree.Sample.{sample_tree}
use advanced_flex_server.ClientSettings.Sample.{stored}
use advanced_flex_server.ClientSettings.{Settings, load, to_ptree}
use advanced_flex_server.ClientSettings.RoundTrip.{client_load-to_ptree}

abbrev before : Settings
before = record stored { interface_port = 81; limit_history = 9; timeout_get = 1 }

client_load-to_ptree_example :
    load sample_tree (map lower) (to_ptree sample_tree stored) before
    ≡ record stored { interface_port = 81; limit_history = 9 }
client_load-to_ptree_example =
    client_load-to_ptree sample_tree (map lower) stored before
      (record { threads = omega arith; get = omega arith; put = omega arith; post = omega arith })
      refl
