-- ===== src/Handler/Sample.antt =====
-- A file system with one file, and requests for it, for the tests.
use advanced_flex_server.Common.{
  Bool, true, false, [], ◌≡◌, ◌↔◌, map, lower, Bytes, codes, eq_bytes, eq_bytes_iff, if◌then◌else◌,
}
use advanced_flex_server.Errors.{ErrorCode, success, no_such_file_or_directory}
use advanced_flex_server.Handler.{Verb, Request, Platform}

abbrev pub same_letters : Bytes → Bytes → Bool
same_letters x y = eq_bytes (map lower x) (map lower y)

pub same_letters_iff : (x y : Bytes) → (same_letters x y ≡ true) ↔ (map lower x ≡ map lower y)
same_letters_iff x y = eq_bytes_iff (map lower x) (map lower y)

abbrev pub one_file : Bytes → ErrorCode × Bytes
one_file path =
    if eq_bytes path (codes "html/index.html")
    then (success, codes "hello")
    else (no_such_file_or_directory, [])

abbrev pub sample_platform : Platform
sample_platform = record {
  iequals = same_letters;
  open_file = one_file;
  message = λ _. codes "broken";
}

abbrev pub ask : Verb → Bytes → Request
ask method target = record {
  method = method;
  target = target;
  version = 11;
  keep_alive = true;
  is_upgrade = false;
}
