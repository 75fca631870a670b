-- ===== src/ServerSettings.antt =====
-- src/c++/systemicai/http/server/settings.h: the settings of the server, read from a property tree
-- and written to one. `boost::algorithm::to_lower` is a parameter.
pub mod RoundTrip
pub mod Bounds
pub mod Sample
mod Tests
use advanced_flex_server.Common.{
  ℕ, String, Bytes, codes, ℤ, pos, to_size, Option, none, some, List, [], ◌∷◌,
}
use advanced_flex_server.PropertyTree.{PropertyTree, store_all}

pub record Settings : Type 0 where
  pub interface_address : Bytes
  pub interface_port : ℕ
  pub document_root : Bytes
  pub log_level : Bytes
  pub service_version : Bytes
  pub ssl_certificate : Bytes
  pub ssl_key : Bytes
  pub ssl_dh : Bytes
  pub thread_io : ℤ
  pub timeout_header : ℕ
  pub timeout_get : ℕ
  pub timeout_put : ℕ
  pub timeout_post : ℕ

abbrev pub or_default {ℓ} : {A : Type ℓ} → Option A → A → A
or_default none d = d
or_default (some a) d = a

-- The value of a text that a parser accepts.
abbrev pub parsed {ℓ} : {A : Type ℓ} → (Bytes → Option A) → Option Bytes → Option A
parsed parse none = none
parsed parse (some text) = parse text

module _ (p : PropertyTree) where
  open p use {Tree, empty, print_ℕ, print_ℤ}

  -- The values that `operator pt::ptree()` puts, in its order.
  entries : Settings → List (String × Bytes)
  entries s =
      ("service.interface.address", s.interface_address)
      ∷ ("service.interface.port", print_ℕ s.interface_port)
      ∷ ("document.root", s.document_root)
      ∷ ("service.log.level", s.log_level)
      ∷ ("service.ssl.certificate", s.ssl_certificate)
      ∷ ("service.ssl.key", s.ssl_key)
      ∷ ("service.ssl.dh", s.ssl_dh)
      ∷ ("service.thread.io", print_ℤ s.thread_io)
      ∷ ("service.timeout.header", print_ℕ s.timeout_header)
      ∷ ("service.timeout.get", print_ℕ s.timeout_get)
      ∷ ("service.timeout.put", print_ℕ s.timeout_put)
      ∷ ("service.timeout.post", print_ℕ s.timeout_post)
      ∷ ("service.version", s.service_version)
      ∷ []

  pub to_ptree : Settings → Tree
  unfolding entries store_all
  to_ptree s = store_all p empty (entries s)

module _ (p : PropertyTree) (to_lower : Bytes → Bytes) where
  open p use {Tree, find, parse_ushort, parse_int, parse_size}

  -- `timeout_header` is read by `tr.get<>(…, 5)`, at the type of its default, `int`.
  unfoldable pub load : Tree → Settings
  load tr = record {
    interface_address = or_default (find tr "service.interface.address") (codes "127.0.0.1");
    interface_port = or_default (parsed parse_ushort (find tr "service.interface.port")) 8080;
    document_root = or_default (find tr "document.root") (codes "html");
    log_level = to_lower (or_default (find tr "service.log.level") (codes "info"));
    service_version = or_default (find tr "service.version") (codes "alpha");
    ssl_certificate = or_default (find tr "service.ssl.certificate") (codes "cfg/dumb.cert");
    ssl_key = or_default (find tr "service.ssl.key") (codes "cfg/dumb.key");
    ssl_dh = or_default (find tr "service.ssl.dh") (codes "cfg/dumb.dh");
    thread_io = or_default (parsed parse_int (find tr "service.thread.io")) (pos 1);
    timeout_header =
        to_size (or_default (parsed parse_int (find tr "service.timeout.header")) (pos 5));
    timeout_get = or_default (parsed parse_size (find tr "service.timeout.get")) 300;
    timeout_put = or_default (parsed parse_size (find tr "service.timeout.put")) 300;
    timeout_post = or_default (parsed parse_size (find tr "service.timeout.post")) 300;
  }
