-- ===== src/Errors.antt =====
-- Error codes and `fail` (src/c++/systemicai/http/server/functions.cpp). Of the codes that the
-- libraries return, the model tells apart those that the source compares with; any other code is
-- `other` with its number. The error stream is the list of the lines written to it, oldest first.
use advanced_flex_server.Common.{ℕ, String, Bool, true, false, List, [], ◌∷◌, ◌++◌}

pub data ErrorCode : Type 0 where
  success end_of_stream closed stream_truncated eof no_such_file_or_directory : ErrorCode
  other : ℕ → ErrorCode

-- `if(ec)`.
abbrev pub is_error : ErrorCode → Bool
is_error ErrorCode.success = false
is_error _ = true

-- A line `what: message` of the error stream.
pub record Line : Type 0 where
  pub what : String
  pub code : ErrorCode

abbrev pub Log : Type 0
Log = List Line

-- Report a failure; a truncated SSL stream is not reported.
unfoldable pub fail : ErrorCode → String → Log → Log
fail ErrorCode.stream_truncated what log = log
fail ec what log = log ++ record { what = what; code = ec } ∷ []
