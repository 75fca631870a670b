-- ===== src/Logging/Levels.antt =====
-- The table behind `set_log_filter` of src/c++/systemicai/cmd/httpd.cpp and of
-- tst/c++/systemicai/http/client/api.cpp.
use advanced_flex_server.Common.{
  Bool, true, false, List, [], ◌∷◌, ◌++◌, Option, none, some, Bytes, codes, eq_bytes, if◌then◌else◌,
  ◌≡◌, refl, arith,
}
use advanced_flex_server.Logging.{
  Level, trace, info, debug, warning, error, fatal, Logging, filter_by,
}

-- The names of the levels.
abbrev pub levels : List (Bytes × Level)
levels =
    (codes "trace", trace)
    ∷ (codes "info", info)
    ∷ (codes "debug", debug)
    ∷ (codes "warning", warning)
    ∷ (codes "error", error)
    ∷ (codes "fatal", fatal)
    ∷ []

unfoldable pub lookup : Bytes → List (Bytes × Level) → Option Level
lookup name [] = none
lookup name ((key, level) ∷ rest) = if eq_bytes name key then some level else lookup name rest

-- The log filter for a looked-up level.
abbrev pub filtered : Bytes → Logging → Option Level → Bool × Logging
filtered name l none = (false, record l { unknown = l.unknown ++ name ∷ [] })
filtered name l (some level) = (true, record l { filter = some level })

pub filter_by-lookup :
    (name : Bytes) (l : Logging) → filter_by name l ≡ filtered name l (lookup name levels)
unfolding filter_by lookup
filter_by-lookup name l = ground arith

pub filter_by-info :
    (name : Bytes) (l : Logging)
    → name ≡ codes "info"
    → filter_by name l ≡ (true, record l { filter = some info })
unfolding filter_by eq_bytes
filter_by-info name l e = rw e refl
