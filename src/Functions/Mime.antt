-- ===== src/Functions/Mime.antt =====
-- What `mime_type` of src/c++/systemicai/http/server/functions.cpp depends on.
use advanced_flex_server.Common.{
  Bool, true, List, [], ◌∷◌, ◌++◌, map, ◌≡◌, refl, sym, ap, ◌∙◌, ◌↔◌, arith, Bytes, codes, rfind,
  lower, NoByte, rfind-lower, rfind-append, rfind-none, drop-map, drop-append, map-lower-lower,
  Bool-eq, if◌then◌else◌, Option-cases, inl, inr, ◌&&◌, eq_bytes, eq_bytes_iff,
}
use advanced_flex_server.Functions.{extension, mime_type}

extension-lower : (path : Bytes) → extension (map lower path) ≡ map lower (extension path)
unfolding extension
extension-lower path = elim (Option-cases (rfind path b'.')) [
  | inl e ↦ rw (extension, rfind-lower path, e)
  | inr (i, e) ↦ rw (extension, rfind-lower path, e) (drop-map i lower path)
]

extension-append : (stem e : Bytes) → NoByte b'.' e → extension (stem ++ b'.' ∷ e) ≡ b'.' ∷ e
unfolding extension
extension-append stem e h = rw (rfind-append stem e h, extension) (drop-append stem (b'.' ∷ e))

extension-none : (path : Bytes) → NoByte b'.' path → extension path ≡ []
unfolding extension
extension-none path h = rw (rfind-none path h, extension)

-- The media types by extension, each extension in lower case.
abbrev mime_table : List (Bytes × Bytes)
mime_table =
    (codes ".htm", codes "text/html")
    ∷ (codes ".html", codes "text/html")
    ∷ (codes ".php", codes "text/html")
    ∷ (codes ".css", codes "text/css")
    ∷ (codes ".txt", codes "text/plain")
    ∷ (codes ".js", codes "application/javascript")
    ∷ (codes ".json", codes "application/json")
    ∷ (codes ".xml", codes "application/xml")
    ∷ (codes ".swf", codes "application/x-shockwave-flash")
    ∷ (codes ".flv", codes "video/x-flv")
    ∷ (codes ".png", codes "image/png")
    ∷ (codes ".jpe", codes "image/jpeg")
    ∷ (codes ".jpeg", codes "image/jpeg")
    ∷ (codes ".jpg", codes "image/jpeg")
    ∷ (codes ".gif", codes "image/gif")
    ∷ (codes ".bmp", codes "image/bmp")
    ∷ (codes ".ico", codes "image/vnd.microsoft.icon")
    ∷ (codes ".tiff", codes "image/tiff")
    ∷ (codes ".tif", codes "image/tiff")
    ∷ (codes ".svg", codes "image/svg+xml")
    ∷ (codes ".svgz", codes "image/svg+xml")
    ∷ []

-- The entry of the first extension that `same` accepts.
first_match : (Bytes → Bool) → List (Bytes × Bytes) → Bytes
first_match same [] = codes "application/text"
first_match same ((e, m) ∷ rows) = if same e then m else first_match same rows

is_lower_table : List (Bytes × Bytes) → Bool
is_lower_table [] = true
is_lower_table ((e, m) ∷ rows) = eq_bytes (map lower e) e && is_lower_table rows

mime_table_lower : is_lower_table mime_table ≡ true
unfolding is_lower_table eq_bytes
mime_table_lower = refl

mime_type-table :
    (iequals : Bytes → Bytes → Bool) (path : Bytes)
    → mime_type iequals path ≡ first_match (iequals (extension path)) mime_table
unfolding mime_type first_match
mime_type-table iequals path = refl

-- The media type of an extension in lower case, by plain equality.
pub media_type : Bytes → Bytes
media_type ext = first_match (eq_bytes ext) mime_table

-- `beast::iequals` compares without regard to the case of ASCII letters.
module _ (iequals : Bytes → Bytes → Bool)
    (iequals_iff : (x y : Bytes) → (iequals x y ≡ true) ↔ (map lower x ≡ map lower y)) where
  iequals-lower : (x y : Bytes) → map lower y ≡ y → iequals x y ≡ eq_bytes (map lower x) y
  iequals-lower x y low =
      Bool-eq _ _ (λ h. (eq_bytes_iff _ _).1 ((iequals_iff x y).0 h ∙ low))
        (λ h. (iequals_iff x y).1 ((eq_bytes_iff _ _).0 h ∙ sym low))

  first_match-lower :
      (ext : Bytes) (rows : List (Bytes × Bytes))
      → is_lower_table rows ≡ true
      → first_match (iequals ext) rows ≡ first_match (eq_bytes (map lower ext)) rows
  unfolding first_match is_lower_table
  first_match-lower ext [] h = refl
  first_match-lower ext ((e, m) ∷ rows) h = rw (
    iequals-lower ext e ((eq_bytes_iff _ _).0 (ground arith)),
    first_match-lower ext rows (ground arith),
  )

  mime_type-extension :
      (path : Bytes) → mime_type iequals path ≡ media_type (map lower (extension path))
  unfolding media_type
  mime_type-extension path =
      mime_type-table iequals path ∙ first_match-lower (extension path) mime_table mime_table_lower

  -- A path and the same path in lower case have the same media type.
  pub mime_type-lower : (path : Bytes) → mime_type iequals (map lower path) ≡ mime_type iequals path
  mime_type-lower path =
      mime_type-extension (map lower path)
      ∙ ap media_type (ap (map lower) (extension-lower path) ∙ map-lower-lower (extension path))
      ∙ sym (mime_type-extension path)

  -- The media type of a path whose last dot stands before `e` is that of the table, looked up by
  -- `.e` in lower case, whatever stands before the dot.
  pub mime_type-append :
      (stem e : Bytes)
      → NoByte b'.' e
      → mime_type iequals (stem ++ b'.' ∷ e) ≡ media_type (map lower (b'.' ∷ e))
  mime_type-append stem e h =
      mime_type-extension (stem ++ b'.' ∷ e)
      ∙ ap (λ x. media_type (map lower x)) (extension-append stem e h)

  -- A path with no dot has the default media type.
  pub mime_type-none :
      (path : Bytes) → NoByte b'.' path → mime_type iequals path ≡ codes "application/text"
  unfolding media_type first_match eq_bytes
  mime_type-none path h =
      mime_type-extension path ∙ ap (λ x. media_type (map lower x)) (extension-none path h)
