-- ===== src/ClientSettings/RoundTrip.antt =====
-- Reading back the property tree of src/c++/systemicai/http/client/settings.h.
use advanced_flex_server.Common.{
  is_path, codes, ◌^◌, ◌<◌, Bytes, IsInt, none, some, ◌≡◌, refl, ap, ◌∙◌, String, true,
}
use advanced_flex_server.PropertyTree.{PropertyTree, separate, fits, last_write, find-store_all}
use advanced_flex_server.ServerSettings.RoundTrip.{header_read, header-lem}
use advanced_flex_server.ClientSettings.{Settings, load, entries, to_ptree}

-- Each number that is written is in the range of its type.
pub record IsInRange (s : Settings) : Type 0 where
  pub threads : IsInt s.thread_io
  pub get : s.timeout_get < 2 ^ 64
  pub put : s.timeout_put < 2 ^ 64
  pub post : s.timeout_post < 2 ^ 64

module _ (p : PropertyTree) (s : Settings) where
  found :
      (k : String)
      → is_path (codes k) ≡ true
      → fits k (entries p s) ≡ true
      → p.find (to_ptree p s) k ≡ last_write k none (entries p s)
  unfolding to_ptree
  found k path h =
      find-store_all p p.empty k (entries p s) h
      ∙ ap (λ old. last_write k old (entries p s)) (p.find-empty k path)

  texts :
      let t = to_ptree p s in
      (p.find t "service.log.level" ≡ some s.log_level)
      × (p.find t "service.ssl.certificate" ≡ some s.ssl_certificate)
      × (p.find t "service.ssl.key" ≡ some s.ssl_key)
      × (p.find t "service.ssl.dh" ≡ some s.ssl_dh)
  unfolding entries fits last_write separate is_path
  texts = (
    found "service.log.level" refl refl,
    found "service.ssl.certificate" refl refl,
    found "service.ssl.key" refl refl,
    found "service.ssl.dh" refl refl,
  )

  numbers :
      let t = to_ptree p s in
      (p.find t "service.thread.io" ≡ some (p.print_ℤ s.thread_io))
      × (p.find t "service.timeout.header" ≡ some (p.print_ℕ s.timeout_header))
      × (p.find t "service.timeout.get" ≡ some (p.print_ℕ s.timeout_get))
      × (p.find t "service.timeout.put" ≡ some (p.print_ℕ s.timeout_put))
      × (p.find t "service.timeout.post" ≡ some (p.print_ℕ s.timeout_post))
  unfolding entries fits last_write separate is_path
  numbers = (
    found "service.thread.io" refl refl,
    found "service.timeout.header" refl refl,
    found "service.timeout.get" refl refl,
    found "service.timeout.put" refl refl,
    found "service.timeout.post" refl refl,
  )

-- Loading the property tree of some settings into others makes these the same, but for
-- `timeout_header`, which comes back as 5 if it is 2 ^ 31 or more, and for the interface and the limit
-- of the history, which are not in the tree and stay as they were. The numbers are in the ranges of
-- their types, and the log level is in lower case.
pub client_load-to_ptree :
    (p : PropertyTree) (to_lower : Bytes → Bytes) (s old : Settings)
    → IsInRange s
    → to_lower s.log_level ≡ s.log_level
    → load p to_lower (to_ptree p s) old ≡ record s {
      interface_address = old.interface_address;
      interface_port = old.interface_port;
      limit_history = old.limit_history;
      timeout_header = header_read s.timeout_header;
    }
unfolding load
client_load-to_ptree p to_lower s old h low =
    let (level, certificate, key, dh) = texts p s in
    let (threads, header, get, put, post) = numbers p s in
    rw (
      level,
      certificate,
      key,
      dh,
      threads,
      header,
      get,
      put,
      post,
      low,
      p.parse_int-print_ℤ s.thread_io h.threads,
      header-lem p to_lower s.timeout_header,
      p.parse_size-print_ℕ s.timeout_get h.get,
      p.parse_size-print_ℕ s.timeout_put h.put,
      p.parse_size-print_ℕ s.timeout_post h.post,
    )
