-- ===== src/Functions/Resolve.antt =====
-- How a path of the file system is read, for the statements about src/c++/systemicai/http/server:
-- its parts between slashes, walked from a directory. Symbolic links are not followed.
-- An absolute path and a relative one are walked alike, and `..` at the top stays there: this is exact for
-- a process whose working directory is `/`.
use advanced_flex_server.Common.{
  List, [], ◌∷◌, ◌++◌, ◌≡◌, ◌≢◌, refl, sym, ap, ◌∙◌, arith, Bytes, codes, eq_bytes, eq_bytes_iff,
  All, ◌==◌, if◌then◌else◌, append_assoc, find, starts_with, Bool-cases, none, inl, inr,
}
use mathlib.Core.List.{tail}

-- The parts of `cur ++ s`, of which `cur` has been read and holds no slash.
unfoldable pub split_from : Bytes → Bytes → List Bytes
split_from cur [] = cur ∷ []
split_from cur (c ∷ s) =
    let closed = split_from [] s in
    let longer = split_from (cur ++ c ∷ []) s in if c == b'/' then cur ∷ closed else longer

unfoldable pub split_slash : Bytes → List Bytes
unfolding split_from
split_slash path = split_from [] path

-- One part: "" and "." stay, ".." goes up, any other goes down. The top of the stack is the head.
enter : List Bytes → Bytes → List Bytes
unfolding eq_bytes
enter stack part =
    if eq_bytes part []
    then stack
    else if eq_bytes part (codes ".")
    then stack
    else if eq_bytes part (codes "..")
    then tail stack
    else part ∷ stack

unfoldable pub walk : List Bytes → List Bytes → List Bytes
unfolding enter
walk stack [] = stack
walk stack (part ∷ parts) = walk (enter stack part) parts

-- The directories and the file that a path leads to, innermost first.
unfoldable pub resolve : Bytes → List Bytes
unfolding walk split_slash
resolve path = walk [] (split_slash path)

abbrev pub IsInner : Bytes → Type 0
IsInner part = part ≢ codes ".."

pub split_from-append :
    (cur s t : Bytes) → split_from cur (s ++ b'/' ∷ t) ≡ split_from cur s ++ split_from [] t
unfolding split_from
split_from-append cur [] t = refl
split_from-append cur (c ∷ s) t =
    ground (arith, split_from-append [] s t, split_from-append (cur ++ c ∷ []) s t)

pub walk-append :
    (stack : List Bytes) (xs ys : List Bytes) → walk stack (xs ++ ys) ≡ walk (walk stack xs) ys
unfolding walk
walk-append stack [] ys = refl
walk-append stack (x ∷ xs) ys = walk-append (enter stack x) xs ys

entered : Bytes → List Bytes
entered part = if eq_bytes part [] then [] else if eq_bytes part (codes ".") then [] else part ∷ []

enter-IsInner :
    (stack : List Bytes) (part : Bytes) → IsInner part → enter stack part ≡ entered part ++ stack
unfolding enter entered
enter-IsInner stack part h = ground (arith, (eq_bytes_iff part (codes "..")).0)

-- Parts other than ".." lead to a place below the start.
pub walk-IsInner :
    (stack parts : List Bytes)
    → All IsInner parts
    → (inner : List Bytes) × (walk stack parts ≡ inner ++ stack)
unfolding walk
walk-IsInner stack [] h = ([], refl)
walk-IsInner stack (x ∷ xs) h =
    let (more, e') = walk-IsInner (enter stack x) xs h.1 in
    (
      more ++ entered x,
      e' ∙ ap (◌++◌ more) (enter-IsInner stack x h.0) ∙ sym (append_assoc more (entered x) stack),
    )

find-append : (s t needle : Bytes) → find (s ++ t) needle ≡ none → find t needle ≡ none
unfolding find
find-append [] t needle h = h
find-append (x ∷ s) t needle h = find-append s t needle (ground arith)

IsInner-find : (cur t : Bytes) → find (cur ++ t) (codes "..") ≡ none → IsInner cur
unfolding find starts_with
IsInner-find cur t h e = let h' = rw e at h in cc

-- A text without ".." has no part "..".
pub split_from-IsInner :
    (cur s : Bytes) → find (cur ++ s) (codes "..") ≡ none → All IsInner (split_from cur s)
unfolding split_from
split_from-IsInner cur [] h = (IsInner-find cur [] h, tt)
split_from-IsInner cur (c ∷ s) h =
    let h' : find ((cur ++ c ∷ []) ++ s) (codes "..") ≡ none = rw (append_assoc cur (c ∷ []) s) h in
    let before = IsInner-find cur (c ∷ s) h in
    let closed = split_from-IsInner [] s (find-append (cur ++ c ∷ []) s _ h') in
    let longer = split_from-IsInner (cur ++ c ∷ []) s h' in
    elim (Bool-cases (c == b'/')) [ inl e ↦ rw e (before, closed) | inr e ↦ rw e longer ]

-- A path below another path.
pub resolve-append : (s t : Bytes) → resolve (s ++ b'/' ∷ t) ≡ walk (resolve s) (split_slash t)
unfolding resolve
resolve-append s t =
    ap (walk []) (split_from-append [] s t) ∙ walk-append [] (split_slash s) (split_slash t)

-- A slash at the end changes nothing.
pub resolve-slash : (s : Bytes) → resolve (s ++ b'/' ∷ []) ≡ resolve s
unfolding walk resolve split_slash
resolve-slash s = resolve-append s []

pub walk-slash :
    (stack : List Bytes) (p : Bytes)
    → walk stack (split_slash (b'/' ∷ p)) ≡ walk stack (split_slash p)
unfolding walk split_slash
walk-slash stack p = refl

pub split_slash-IsInner : (s : Bytes) → find s (codes "..") ≡ none → All IsInner (split_slash s)
unfolding split_slash
split_slash-IsInner s h = split_from-IsInner [] s h

-- The parts of a path whose last name is `t`.
pub split_slash-append :
    (s t : Bytes) → split_slash (s ++ b'/' ∷ t) ≡ split_slash s ++ split_slash t
unfolding split_slash
split_slash-append s t = split_from-append [] s t

pub resolve-root : (p : Bytes) → resolve (b'/' ∷ p) ≡ walk (resolve []) (split_slash (b'/' ∷ p))
unfolding resolve
resolve-root p = refl
