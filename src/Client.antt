-- ===== src/Client.antt =====
-- The example client (src/c++/systemicai/http/client/api.hpp): its class signing, and the state that its
-- classes master and child (Client/Master.antt, Client/Child.antt) have as well. The outstanding
-- operations and the standard output are part of the state.
pub mod Master
pub mod Child
pub mod Classes
pub mod Exchange
pub mod Termination
mod Tests
use advanced_flex_server.Common.{
  ℕ, String, Bool, true, false, List, [], ◌∷◌, ◌++◌, Option, none, some, Bytes, if◌then◌else◌,
}
use advanced_flex_server.Errors.{ErrorCode, success, is_error, Line, Log}

-- The GET request, with its fields Host and User-Agent.
pub record ClientRequest : Type 0 where
  pub version : ℕ
  pub target : Bytes
  pub host : Bytes
  pub user_agent : Bytes

pub data Operation : Type 0 where
  resolve : Bytes → Bytes → Operation
  connect handshake : Operation
  write : ClientRequest → Operation
  read shut_down : Operation

-- `printed` are the responses on the standard output; a line of the log with no name is one of `run`.
pub record Client : Type 0 where
  pub req : Option ClientRequest
  pub outstanding : List Operation
  pub printed : List Bytes
  pub log : Log

unfoldable pub new_client : Client
new_client = record { req = none; outstanding = []; printed = []; log = [] }

-- Report a failure.
unfoldable pub fail : ErrorCode → String → Log → Log
fail ec what log = log ++ record { what = what; code = ec } ∷ []

abbrev pub begin : Operation → Client → Client
begin op c = record c { outstanding = c.outstanding ++ op ∷ [] }

-- `sni` is the error of setting the host name for TLS, if any; `version_string` is
-- BOOST_BEAST_VERSION_STRING.
unfoldable pub run : Bytes → Option ErrorCode → Bytes → Bytes → Bytes → ℕ → Client → Client
unfolding fail
run version_string (some ec) host port target version c = record c { log = fail ec "" c.log }
run version_string none host port target version c = begin (resolve host port) (record c {
  req =
      some
        (record { version = version; target = target; host = host; user_agent = version_string });
})

unfoldable pub on_resolve : ErrorCode → Client → Client
unfolding fail
on_resolve ec c =
    if is_error ec then record c { log = fail ec "resolve" c.log } else begin connect c

unfoldable pub on_connect : ErrorCode → Client → Client
unfolding fail
on_connect ec c =
    if is_error ec then record c { log = fail ec "connect" c.log } else begin handshake c

-- The request is the one that `run` has set up.
unfoldable pub on_handshake : ErrorCode → Client → Client
unfolding fail
on_handshake ec c =
    if is_error ec
    then record c { log = fail ec "handshake" c.log }
    else elim c.req [ none ↦ c | some req ↦ begin (write req) c ]

unfoldable pub on_write : ErrorCode → Client → Client
unfolding fail
on_write ec c = if is_error ec then record c { log = fail ec "write" c.log } else begin read c

unfoldable pub on_read : ErrorCode → Bytes → Client → Client
unfolding fail
on_read ec res c =
    if is_error ec
    then record c { log = fail ec "read" c.log }
    else begin shut_down (record c { printed = c.printed ++ res ∷ [] })

-- The end of the stream is no error here.
abbrev pub without_eof : ErrorCode → ErrorCode
without_eof ErrorCode.eof = success
without_eof ec = ec

unfoldable pub on_shutdown : ErrorCode → Client → Client
unfolding fail
on_shutdown ec c =
    let left = without_eof ec in
    if is_error left then record c { log = fail left "shutdown" c.log } else c
