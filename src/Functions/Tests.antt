-- ===== src/Functions/Tests.antt =====
-- Runs of the functions of src/c++/systemicai/http/server/functions.cpp, and the theorems about them
-- at concrete inputs.
use advanced_flex_server.Common.{[], ◌≡◌, refl, codes, eq_bytes, rfind, arith}
use advanced_flex_server.Functions.{mime_type, path_cat}
use advanced_flex_server.Functions.Mime.{media_type, mime_type-append}
use advanced_flex_server.Functions.Resolve.{resolve, walk, split_slash}
use advanced_flex_server.Functions.Paths.{resolve-path_cat}
use advanced_flex_server.Handler.Sample.{same_letters, same_letters_iff}

mime_type_tests :
    (mime_type same_letters (codes "a.b/Page.HTML") ≡ codes "text/html")
    × (mime_type same_letters (codes "logo.svgz") ≡ codes "image/svg+xml")
    × (mime_type same_letters (codes "Makefile") ≡ codes "application/text")
unfolding mime_type rfind eq_bytes
mime_type_tests = (refl, refl, refl)

path_cat_tests :
    (path_cat (codes "./html/") (codes "/a") ≡ codes "./html/a")
    × (path_cat (codes "./html") (codes "/a") ≡ codes "./html/a")
    × (path_cat [] (codes "/a") ≡ codes "/a")
unfolding path_cat
path_cat_tests = (refl, refl, refl)

mime_type-append_example : mime_type same_letters (codes "a.b/logo.PNG") ≡ media_type (codes ".png")
mime_type-append_example =
    mime_type-append same_letters same_letters_iff (codes "a.b/logo") (codes "PNG") (omega arith)

resolve-path_cat_example :
    resolve (path_cat (codes "html/") (codes "/a/b"))
    ≡ walk (resolve (codes "html/")) (split_slash (codes "/a/b"))
resolve-path_cat_example = resolve-path_cat (codes "html/") (codes "/a/b") refl
