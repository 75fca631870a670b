-- ===== src/ClientCommand/Certificates.antt =====
-- The two ways to load certificates: `load_server_certificate` of
-- tst/c++/systemicai/http/client/api.cpp, and `load` of src/c++/systemicai/common/certificate.h.
use advanced_flex_server.Common.{Bool, Option, Bytes, ◌≡◌, refl}
use advanced_flex_server.ClientSettings.{Settings}
use advanced_flex_server.Certificate.{SslContext, ContextCall, call}
use advanced_flex_server.Certificate.Loading.{loading, call_all}
use advanced_flex_server.ClientCommand.{contents, load_server_certificate}

-- The client makes the calls of `load`, with its own answer to the password callback, and with an
-- empty text for a file that cannot be opened.
pub load_server_certificate-calls :
    (rejects : SslContext → ContextCall → Bool) (read_file : Bytes → Option Bytes) (s : Settings)
    (ctx : SslContext)
    → load_server_certificate rejects read_file s ctx
      ≡ call_all rejects
          (loading "test"
            (contents (read_file s.ssl_certificate))
            (contents (read_file s.ssl_key))
            (contents (read_file s.ssl_dh)))
          ctx
unfolding load_server_certificate call_all call
load_server_certificate-calls rejects read_file s ctx = refl
