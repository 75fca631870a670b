-- ===== src/Functions.antt =====
-- The free functions of src/c++/systemicai/http/server/functions.cpp: the media type of a path, and
-- the path of a served file. `beast::string_view` has the members of `std::string_view`;
-- `beast::iequals` is Boost's, a parameter.
pub mod Mime
pub mod Resolve
pub mod Paths
mod Tests
use advanced_flex_server.Common.{
  ℕ, ◌-◌, Bool, ◌++◌, [], none, some, Option, Bytes, codes, rfind, back?, take, drop, length,
  is_empty, ◌==◌, if◌then◌else◌,
}

-- The local `ext` of `mime_type`: from the last dot to the end, empty if there is no dot.
pub extension : Bytes → Bytes
unfolding rfind
extension path = elim (rfind path b'.') [ none ↦ [] | some pos ↦ drop pos path ]

-- Return a media type based on the extension of a file; `iequals` ignores the case of letters.
unfoldable pub mime_type : (Bytes → Bytes → Bool) → Bytes → Bytes
unfolding extension
mime_type iequals path =
    let ext = extension path in
    if iequals ext (codes ".htm")
    then codes "text/html"
    else if iequals ext (codes ".html")
    then codes "text/html"
    else if iequals ext (codes ".php")
    then codes "text/html"
    else if iequals ext (codes ".css")
    then codes "text/css"
    else if iequals ext (codes ".txt")
    then codes "text/plain"
    else if iequals ext (codes ".js")
    then codes "application/javascript"
    else if iequals ext (codes ".json")
    then codes "application/json"
    else if iequals ext (codes ".xml")
    then codes "application/xml"
    else if iequals ext (codes ".swf")
    then codes "application/x-shockwave-flash"
    else if iequals ext (codes ".flv")
    then codes "video/x-flv"
    else if iequals ext (codes ".png")
    then codes "image/png"
    else if iequals ext (codes ".jpe")
    then codes "image/jpeg"
    else if iequals ext (codes ".jpeg")
    then codes "image/jpeg"
    else if iequals ext (codes ".jpg")
    then codes "image/jpeg"
    else if iequals ext (codes ".gif")
    then codes "image/gif"
    else if iequals ext (codes ".bmp")
    then codes "image/bmp"
    else if iequals ext (codes ".ico")
    then codes "image/vnd.microsoft.icon"
    else if iequals ext (codes ".tiff")
    then codes "image/tiff"
    else if iequals ext (codes ".tif")
    then codes "image/tiff"
    else if iequals ext (codes ".svg")
    then codes "image/svg+xml"
    else if iequals ext (codes ".svgz")
    then codes "image/svg+xml"
    else codes "application/text"

-- `result.back() == path_separator`, for a string that is not empty.
abbrev pub ends_with : Bytes → ℕ → Bool
ends_with s c = elim (back? s) [ some b ↦ b == c | none ↦ Bool.false ]

-- Append a request path to a path of the file system, where the separator is '/'.
unfoldable pub path_cat : Bytes → Bytes → Bytes
path_cat base path =
    if is_empty base
    then path
    else (if ends_with base b'/' then take (length base - 1) base else base) ++ path
