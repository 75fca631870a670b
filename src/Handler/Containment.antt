-- ===== src/Handler/Containment.antt =====
-- Which files `default_handle_request` of src/c++/systemicai/http/server/handlers/handler.hpp looks at.
use advanced_flex_server.Common.{
  ℕ, false, List, [], ◌∷◌, ◌++◌, none, some, ◌≡◌, refl, arith, Bytes, codes, find, c_str_lem,
  NoByte, All-append, All-take, front?, Bool-cases, inl, inr,
}
use advanced_flex_server.Errors.{ErrorCode}
use advanced_flex_server.ServerSettings.{Settings}
use advanced_flex_server.Functions.{path_cat, ends_with}
use advanced_flex_server.Functions.Resolve.{resolve}
use advanced_flex_server.Functions.Paths.{path_cat-inner, path_cat_file-inner}
use advanced_flex_server.Handler.{Request, Platform, served_path, is_illegal}
use advanced_flex_server.Handler.Answer.{answer}

path_cat-NoByte :
    (c : ℕ) (base path : Bytes) → NoByte c base → NoByte c path → NoByte c (path_cat base path)
unfolding path_cat
path_cat-NoByte c [] path hb hp = hp
path_cat-NoByte c (b ∷ base) path hb hp = elim (Bool-cases (ends_with (b ∷ base) b'/')) [
  | inl e ↦ rw e (All-append _ _ path (All-take _ _ (b ∷ base) hb) hp)
  | inr e ↦ rw e (All-append _ (b ∷ base) path hb hp)
]

index_lem : find (codes "index.html") (codes "..") ≡ none
unfolding find
index_lem = refl

module _ (root target : Bytes) where
  served_path-NoByte : NoByte 0 root → NoByte 0 target → NoByte 0 (served_path root target)
  unfolding served_path
  served_path-NoByte hr ht = elim (Bool-cases (ends_with target b'/')) [
    | inl e ↦
        rw e (
          All-append _ (path_cat root target) _ (path_cat-NoByte 0 root target hr ht)
            (ground arith))
    | inr e ↦ rw e (path_cat-NoByte 0 root target hr ht)
  ]

  -- The path of a target that is not refused leads to the root or below it.
  served_path-inner :
      is_illegal target ≡ false
      → (inner : List Bytes) × (resolve (served_path root target) ≡ inner ++ resolve root)
  unfolding served_path is_illegal
  served_path-inner h =
      let first : front? target ≡ some b'/' = ground arith in
      let dots : find target (codes "..") ≡ none = ground arith in
      elim (Bool-cases (ends_with target b'/')) [
        | inl e ↦ rw e (path_cat_file-inner root target (codes "index.html") first e dots index_lem)
        | inr e ↦ rw e (path_cat-inner root target first dots)
      ]

-- Only files in the tree of the document root have an effect on a response: with another file system
-- that agrees with this one on the paths that lead to the root or below it, the response is the same.
-- No NUL byte stands in the root, nor in the target (the parser of requests refuses it).
pub answer_contained :
    (p : Platform) (root : Bytes) (req : Request) (s : Settings)
    (open_other : Bytes → ErrorCode × Bytes)
    → NoByte 0 root
    → NoByte 0 req.target
    → ((path : Bytes) (inner : List Bytes)
        → resolve path ≡ inner ++ resolve root
        → p.open_file path ≡ open_other path)
    → answer (record p { open_file = open_other }) root req s ≡ answer p root req s
unfolding answer
answer_contained p root req s open_other hr ht agree = elim (Bool-cases (is_illegal req.target)) [
  | inl bad ↦ ground arith
  | inr good ↦
      let (inner, e) = served_path-inner root req.target good in
      let full = c_str_lem _ (served_path-NoByte root req.target hr ht) in
      let same = agree _ inner e in ground (arith, full, same)
]
