-- ===== src/ServerSettings/RoundTrip.antt =====
-- Reading back the property tree of src/c++/systemicai/http/server/settings.h.
use advanced_flex_server.Common.{
  is_path, codes, ℕ, ◌^◌, ◌<◌, Bytes, pos, IsInt, none, some, ◌≡◌, refl, ap, ◌∙◌, arith, String,
  true, ltb, if◌then◌else◌, to_size,
}
use advanced_flex_server.PropertyTree.{PropertyTree, separate, fits, last_write, find-store_all}
use advanced_flex_server.ServerSettings.{Settings, load, entries, to_ptree, or_default}

-- Each number is in the range of its type.
pub record IsInRange (s : Settings) : Type 0 where
  pub port : s.interface_port < 2 ^ 16
  pub threads : IsInt s.thread_io
  pub get : s.timeout_get < 2 ^ 64
  pub put : s.timeout_put < 2 ^ 64
  pub post : s.timeout_post < 2 ^ 64

module _ (p : PropertyTree) (s : Settings) where
  open p use {find, print_ℕ, print_ℤ}

  find-to_ptree :
      (k : String)
      → is_path (codes k) ≡ true
      → fits k (entries p s) ≡ true
      → find (to_ptree p s) k ≡ last_write k none (entries p s)
  unfolding to_ptree
  find-to_ptree k path h =
      find-store_all p p.empty k (entries p s) h
      ∙ ap (λ old. last_write k old (entries p s)) (p.find-empty k path)

  record HoldsSettings (t : p.Tree) : Type 0 where
    address : find t "service.interface.address" ≡ some s.interface_address
    port : find t "service.interface.port" ≡ some (print_ℕ s.interface_port)
    root : find t "document.root" ≡ some s.document_root
    level : find t "service.log.level" ≡ some s.log_level
    version : find t "service.version" ≡ some s.service_version
    certificate : find t "service.ssl.certificate" ≡ some s.ssl_certificate
    key : find t "service.ssl.key" ≡ some s.ssl_key
    dh : find t "service.ssl.dh" ≡ some s.ssl_dh
    threads : find t "service.thread.io" ≡ some (print_ℤ s.thread_io)
    header : find t "service.timeout.header" ≡ some (print_ℕ s.timeout_header)
    get : find t "service.timeout.get" ≡ some (print_ℕ s.timeout_get)
    put : find t "service.timeout.put" ≡ some (print_ℕ s.timeout_put)
    post : find t "service.timeout.post" ≡ some (print_ℕ s.timeout_post)

  to_ptree-HoldsSettings : HoldsSettings (to_ptree p s)
  unfolding entries fits last_write separate is_path
  to_ptree-HoldsSettings = record {
    address = find-to_ptree "service.interface.address" refl refl;
    port = find-to_ptree "service.interface.port" refl refl;
    root = find-to_ptree "document.root" refl refl;
    level = find-to_ptree "service.log.level" refl refl;
    version = find-to_ptree "service.version" refl refl;
    certificate = find-to_ptree "service.ssl.certificate" refl refl;
    key = find-to_ptree "service.ssl.key" refl refl;
    dh = find-to_ptree "service.ssl.dh" refl refl;
    threads = find-to_ptree "service.thread.io" refl refl;
    header = find-to_ptree "service.timeout.header" refl refl;
    get = find-to_ptree "service.timeout.get" refl refl;
    put = find-to_ptree "service.timeout.put" refl refl;
    post = find-to_ptree "service.timeout.post" refl refl;
  }

-- What a `timeout_header` is read back as: it is read as an `int`.
abbrev pub header_read : ℕ → ℕ
header_read n = if ltb n (2 ^ 31) then n else 5

module _ (p : PropertyTree) (to_lower : Bytes → Bytes) where
  pub header-lem :
      (n : ℕ) → to_size (or_default (p.parse_int (p.print_ℕ n)) (pos 5)) ≡ header_read n
  header-lem n = ground (arith, p.parse_int-print_ℕ n, p.parse_int-overflow n)

  -- Writing settings to a property tree and reading them back gives the settings again, but for a
  -- `timeout_header` of 2 ^ 31 or more, which comes back as 5. The numbers are in the ranges of
  -- their types, and the log level is in lower case.
  pub load-to_ptree :
      (s : Settings)
      → IsInRange s
      → to_lower s.log_level ≡ s.log_level
      → load p to_lower (to_ptree p s) ≡ record s { timeout_header = header_read s.timeout_header }
  unfolding load
  load-to_ptree s h low =
      let t = to_ptree-HoldsSettings p s in
      rw (
        t.address,
        t.port,
        t.root,
        t.level,
        t.version,
        t.certificate,
        t.key,
        t.dh,
        t.threads,
        t.header,
        t.get,
        t.put,
        t.post,
        p.parse_ushort-print_ℕ s.interface_port h.port,
        low,
        p.parse_int-print_ℤ s.thread_io h.threads,
        header-lem s.timeout_header,
        p.parse_size-print_ℕ s.timeout_get h.get,
        p.parse_size-print_ℕ s.timeout_put h.put,
        p.parse_size-print_ℕ s.timeout_post h.post,
      )
