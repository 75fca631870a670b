-- ===== src/ServerSettings/Tests.antt =====
-- The settings of src/c++/systemicai/http/server/settings.h at concrete values.
use advanced_flex_server.Common.{◌-◌, [], ◌∷◌, ◌^◌, map, lower, ℤ, pos, ◌≡◌, refl, arith}
use advanced_flex_server.PropertyTree.Sample.{sample_tree}
use advanced_flex_server.ServerSettings.Sample.{default_settings}
use advanced_flex_server.ServerSettings.{Settings, load, to_ptree}
use advanced_flex_server.ServerSettings.Bounds.{ComesFrom, TimeoutFrom, IsConverted, load-bounds}
use advanced_flex_server.ServerSettings.RoundTrip.{IsInRange, load-to_ptree}

load-empty : load sample_tree (map lower) sample_tree.empty ≡ default_settings
unfolding load
load-empty = refl

slow_settings : Settings
slow_settings = record default_settings { timeout_header = 2 ^ 32 }

load-to_ptree_example :
    load sample_tree (map lower) (to_ptree sample_tree slow_settings) ≡ default_settings
unfolding slow_settings
load-to_ptree_example =
    load-to_ptree sample_tree (map lower) slow_settings
      (record {
        port = omega arith;
        threads = omega arith;
        get = omega arith;
        put = omega arith;
        post = omega arith;
      })
      refl

-- A header timeout of -1.
abbrev negative_tree : sample_tree.Tree
negative_tree = sample_tree.store sample_tree.empty "service.timeout.header" (0 ∷ 1 ∷ [])

negative_settings : Settings
unfolding load
negative_settings = load sample_tree (map lower) negative_tree

negative_header : negative_settings.timeout_header ≡ 2 ^ 64 - 1
unfolding negative_settings
negative_header = refl

load-bounds_example :
    ComesFrom sample_tree.parse_ushort
      (sample_tree.find negative_tree "service.interface.port")
      8080
      (load sample_tree (map lower) negative_tree).interface_port
    × ComesFrom sample_tree.parse_int
        (sample_tree.find negative_tree "service.thread.io")
        (pos 1)
        (load sample_tree (map lower) negative_tree).thread_io
    × TimeoutFrom sample_tree
        (map lower)
        negative_tree
        "service.timeout.get"
        (load sample_tree (map lower) negative_tree).timeout_get
    × TimeoutFrom sample_tree
        (map lower)
        negative_tree
        "service.timeout.put"
        (load sample_tree (map lower) negative_tree).timeout_put
    × TimeoutFrom sample_tree
        (map lower)
        negative_tree
        "service.timeout.post"
        (load sample_tree (map lower) negative_tree).timeout_post
    × IsInRange (load sample_tree (map lower) negative_tree)
    × ((i : ℤ) × ComesFrom sample_tree.parse_int
          (sample_tree.find negative_tree "service.timeout.header")
          (pos 5)
          i
        × IsConverted i (load sample_tree (map lower) negative_tree).timeout_header)
load-bounds_example = load-bounds sample_tree (map lower) negative_tree
