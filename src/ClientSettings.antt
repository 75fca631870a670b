-- ===== src/ClientSettings.antt =====
-- src/c++/systemicai/http/client/settings.h: the settings of the client. `load` leaves the fields alone
-- that it does not read. `boost::algorithm::to_lower` is a parameter.
pub mod RoundTrip
pub mod Sample
mod Tests
use advanced_flex_server.Common.{ℕ, String, Bytes, codes, ℤ, pos, to_size, List, [], ◌∷◌}
use advanced_flex_server.PropertyTree.{PropertyTree, store_all}
use advanced_flex_server.ServerSettings.{or_default, parsed}

pub record Settings : Type 0 where
  pub interface_address : Bytes
  pub interface_port : ℕ
  pub log_level : Bytes
  pub ssl_certificate : Bytes
  pub ssl_key : Bytes
  pub ssl_dh : Bytes
  pub thread_io : ℤ
  pub timeout_header : ℕ
  pub timeout_get : ℕ
  pub timeout_put : ℕ
  pub timeout_post : ℕ
  pub limit_history : ℕ

module _ (p : PropertyTree) where
  open p use {Tree, empty, print_ℕ, print_ℤ}

  -- The values that `operator pt::ptree()` puts, in its order.
  entries : Settings → List (String × Bytes)
  entries s =
      ("service.log.level", s.log_level)
      ∷ ("service.ssl.certificate", s.ssl_certificate)
      ∷ ("service.ssl.key", s.ssl_key)
      ∷ ("service.ssl.dh", s.ssl_dh)
      ∷ ("service.thread.io", print_ℤ s.thread_io)
      ∷ ("service.timeout.header", print_ℕ s.timeout_header)
      ∷ ("service.timeout.get", print_ℕ s.timeout_get)
      ∷ ("service.timeout.put", print_ℕ s.timeout_put)
      ∷ ("service.timeout.post", print_ℕ s.timeout_post)
      ∷ []

  pub to_ptree : Settings → Tree
  unfolding entries store_all
  to_ptree s = store_all p empty (entries s)

module _ (p : PropertyTree) (to_lower : Bytes → Bytes) where
  open p use {Tree, find, parse_int, parse_size}

  -- `timeout_header` is read by `tr.get<>(…, 5)`, at the type of its default, `int`.
  unfoldable pub load : Tree → Settings → Settings
  load tr old = record old {
    log_level = to_lower (or_default (find tr "service.log.level") (codes "info"));
    ssl_certificate = or_default (find tr "service.ssl.certificate") (codes "cfg/dumb.cert");
    ssl_key = or_default (find tr "service.ssl.key") (codes "cfg/dumb.key");
    ssl_dh = or_default (find tr "service.ssl.dh") (codes "cfg/dumb.dh");
    thread_io = or_default (parsed parse_int (find tr "service.thread.io")) (pos 1);
    timeout_header =
        to_size (or_default (parsed parse_int (find tr "service.timeout.header")) (pos 5));
    timeout_get = or_default (parsed parse_size (find tr "service.timeout.get")) 300;
    timeout_put = or_default (parsed parse_size (find tr "service.timeout.put")) 300;
    timeout_post = or_default (parsed parse_size (find tr "service.timeout.post")) 300;
  }
