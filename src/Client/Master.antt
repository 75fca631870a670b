-- ===== src/Client/Master.antt =====
-- The class master of src/c++/systemicai/http/client/api.hpp, with the state of Client.antt.
use advanced_flex_server.Common.{ℕ, [], ◌∷◌, ◌++◌, Option, none, some, Bytes, if◌then◌else◌}
use advanced_flex_server.Errors.{ErrorCode, is_error}
use advanced_flex_server.Client.{
  Client, ClientRequest, resolve, connect, handshake, write, read, shut_down, fail, without_eof,
  begin,
}

unfoldable pub new_master : Client
new_master = record { req = none; outstanding = []; printed = []; log = [] }

-- With BOOST_BEAST_VERSION_STRING and the error of setting the host name for TLS, if any.
unfoldable pub run : Bytes → Option ErrorCode → Bytes → Bytes → Bytes → ℕ → Client → Client
unfolding fail
run version_string (some ec) host port target version c = record c { log = fail ec "" c.log }
run version_string none host port target version c =
    let get : ClientRequest = record {
      version = version;
      target = target;
      host = host;
      user_agent = version_string;
    } in
    begin (resolve host port) (record c { req = some get })

unfoldable pub on_resolve : ErrorCode → Client → Client
unfolding fail
on_resolve ec c =
    if is_error ec then record c { log = fail ec "resolve" c.log } else begin connect c

unfoldable pub on_connect : ErrorCode → Client → Client
unfolding fail
on_connect ec c =
    if is_error ec then record c { log = fail ec "connect" c.log } else begin handshake c

unfoldable pub on_handshake : ErrorCode → Client → Client
unfolding fail
on_handshake ec c =
    if is_error ec
    then record c { log = fail ec "handshake" c.log }
    else elim c.req [ none ↦ c | some req ↦ begin (write req) c ]

unfoldable pub on_write : ErrorCode → Client → Client
unfolding fail
on_write ec c = if is_error ec then record c { log = fail ec "write" c.log } else begin read c

unfoldable pub on_read : ErrorCode → Bytes → Client → Client
unfolding fail
on_read ec res c =
    if is_error ec
    then record c { log = fail ec "read" c.log }
    else begin shut_down (record c { printed = c.printed ++ res ∷ [] })

-- The end of the stream is no error here.
unfoldable pub on_shutdown : ErrorCode → Client → Client
unfolding fail
on_shutdown ec c =
    let left = without_eof ec in
    if is_error left then record c { log = fail left "shutdown" c.log } else c
