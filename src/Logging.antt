-- ===== src/Logging.antt =====
-- The filter of the log, as src/c++/systemicai/cmd/httpd.cpp and
-- tst/c++/systemicai/http/client/api.cpp set it, both in a `set_log_filter`, by the level's name.
pub mod Levels
use advanced_flex_server.Common.{
  Bool, true, false, List, [], ◌∷◌, ◌++◌, Option, none, some, Bytes, codes, eq_bytes, if◌then◌else◌,
}

pub data Level : Type 0 where
  trace info debug warning error fatal : Level

-- The filter of the log, if one is set, and the level names that were reported as unknown.
pub record Logging : Type 0 where
  pub filter : Option Level
  pub unknown : List Bytes

abbrev pub set_filter : Level → Logging → Bool × Logging
set_filter level l = (true, record l { filter = some level })

-- The comparisons of `set_log_filter`, with the level name of the settings.
unfoldable pub filter_by : Bytes → Logging → Bool × Logging
filter_by name l =
    if eq_bytes name (codes "trace")
    then set_filter trace l
    else if eq_bytes name (codes "info")
    then set_filter info l
    else if eq_bytes name (codes "debug")
    then set_filter debug l
    else if eq_bytes name (codes "warning")
    then set_filter warning l
    else if eq_bytes name (codes "error")
    then set_filter error l
    else if eq_bytes name (codes "fatal")
    then set_filter fatal l
    else (false, record l { unknown = l.unknown ++ name ∷ [] })
