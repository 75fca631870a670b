-- ===== src/Functions/Paths.antt =====
-- Where the paths that `path_cat` of src/c++/systemicai/http/server/functions.cpp builds lead to.
use advanced_flex_server.Common.{
  List, [], ◌∷◌, ◌++◌, ◌≡◌, refl, sym, ap, ◌∙◌, inl, inr, arith, Bytes, codes, find, none, some,
  true, All-append, All-left, back?, front?, take-back, append_assoc, Bool-cases, Option-cases,
  if◌then◌else◌, length, take, ◌-◌, ℕ,
}
use advanced_flex_server.Functions.{path_cat, ends_with}
use advanced_flex_server.Functions.Resolve.{
  resolve, walk, split_slash, IsInner, walk-IsInner, resolve-append, resolve-slash, walk-slash,
  split_slash-IsInner, split_slash-append, resolve-root,
}

-- A string that ends with `c` is what stands before it, and `c`.
back-ends_with : (s : Bytes) (c : ℕ) → ends_with s c ≡ true → take (length s - 1) s ++ c ∷ [] ≡ s
back-ends_with s c h = elim (Option-cases (back? s)) [
  | inl e ↦ ground arith
  | inr (b, e) ↦ take-back s c (ground arith)
]

module _ (p : Bytes) where
  resolve-base :
      (base : Bytes) → resolve (base ++ b'/' ∷ p) ≡ walk (resolve base) (split_slash (b'/' ∷ p))
  resolve-base base = resolve-append base p ∙ sym (walk-slash (resolve base) p)

  resolve-stripped :
      (base : Bytes)
      → resolve ((if ends_with base b'/' then take (length base - 1) base else base) ++ b'/' ∷ p)
        ≡ walk (resolve base) (split_slash (b'/' ∷ p))
  resolve-stripped base = elim (Bool-cases (ends_with base b'/')) [
    | inl e ↦
        let stem = take (length base - 1) base in
        rw e (
          resolve-base stem
          ∙ ap (λ r. walk r (split_slash (b'/' ∷ p)))
              (sym (resolve-slash stem) ∙ ap resolve (back-ends_with base b'/' e)))
    | inr e ↦ rw e (resolve-base base)
  ]

  resolve-path_cat_slash :
      (base : Bytes)
      → resolve (path_cat base (b'/' ∷ p)) ≡ walk (resolve base) (split_slash (b'/' ∷ p))
  unfolding path_cat
  resolve-path_cat_slash [] = resolve-root p
  resolve-path_cat_slash (b ∷ base) = resolve-stripped (b ∷ base)

-- The root of the served tree, then the parts of the request path: whether or not the root ends with
-- a slash, and also where it is empty.
pub resolve-path_cat :
    (base path : Bytes)
    → front? path ≡ some b'/'
    → resolve (path_cat base path) ≡ walk (resolve base) (split_slash path)
resolve-path_cat base [] h = cc
resolve-path_cat base (c ∷ p) h =
    let slash : c ≡ b'/' = ground arith in rw slash (resolve-path_cat_slash p base)

path_cat-append :
    (base path name : Bytes) → path_cat base path ++ name ≡ path_cat base (path ++ name)
unfolding path_cat
path_cat-append [] path name = refl
path_cat-append (b ∷ base) path name = append_assoc _ path name

-- A request path that begins with a slash and holds no ".." leads to the root or below it.
pub path_cat-inner :
    (base path : Bytes)
    → front? path ≡ some b'/'
    → find path (codes "..") ≡ none
    → (inner : List Bytes) × (resolve (path_cat base path) ≡ inner ++ resolve base)
path_cat-inner base path h dots =
    let (inner, e) =
      walk-IsInner (resolve base) (split_slash path) (split_slash-IsInner path dots) in
    (inner, resolve-path_cat base path h ∙ e)

front-append : (path name : Bytes) → front? path ≡ some b'/' → front? (path ++ name) ≡ some b'/'
front-append [] name h = cc
front-append (c ∷ p) name h = h

-- So does the name of a file in the directory that such a path, ending with a slash, names.
pub path_cat_file-inner :
    (base path name : Bytes)
    → front? path ≡ some b'/'
    → ends_with path b'/' ≡ true
    → find path (codes "..") ≡ none
    → find name (codes "..") ≡ none
    → (inner : List Bytes) × (resolve (path_cat base path ++ name) ≡ inner ++ resolve base)
path_cat_file-inner base path name h ends dots dots' =
    let stem = take (length path - 1) path in
    let whole = back-ends_with path b'/' ends in
    let parts = rw (← whole, split_slash-append stem []) at (split_slash-IsInner path dots) in
    let longer : path ++ name ≡ stem ++ b'/' ∷ name =
      sym (ap (λ s. s ++ name) whole) ∙ append_assoc stem (b'/' ∷ []) name in
    let split = ap split_slash longer ∙ split_slash-append stem name in
    let (inner, e) = walk-IsInner (resolve base) (split_slash (path ++ name)) (
      rw split (
        All-append IsInner (split_slash stem) (split_slash name)
          (All-left IsInner (split_slash stem) (split_slash []) parts)
          (split_slash-IsInner name dots'))) in
    (
      inner,
      ap resolve (path_cat-append base path name)
          ∙ resolve-path_cat base (path ++ name) (front-append path name h)
          ∙ e,
    )
