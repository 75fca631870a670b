-- ===== src/Common/Text.antt =====
-- Byte strings: `std::string` and `string_view`, with the members that the source calls.
use Prim.Native.Nat.{ℕ, suc, ◌+◌}
use Prim.Native.Char.{code}
use Prim.Native.String.{String}
use mathlib.Core.Path.{◌≡◌, refl, ap₂}
use mathlib.Core.Bool.{Bool, true, false, not, ◌&&◌}
use mathlib.Core.Logic.{◌≢◌, ◌↔◌}
use mathlib.Core.Option
use mathlib.Core.Option.{Option, none, some}
use mathlib.Core.List.{List, [], ◌∷◌, ◌++◌, map}
use native.Mathlib.Omega.{arith}
use advanced_flex_server.Common.Logic.{◌==◌, leb, if◌then◌else◌}
use advanced_flex_server.Common.Lists.{length, All}

abbrev pub Bytes : Type 0
Bytes = List ℕ

-- The bytes of a literal of the source (all of them are ASCII).
abbrev pub codes : String → Bytes
codes String.[] = []
codes (String.◌∷◌ c s) = code c ∷ codes s

-- Equality of two strings.
unfoldable pub eq_bytes : Bytes → Bytes → Bool
eq_bytes [] [] = true
eq_bytes [] (y ∷ ys) = false
eq_bytes (x ∷ xs) [] = false
eq_bytes (x ∷ xs) (y ∷ ys) = x == y && eq_bytes xs ys

-- A path of a property tree that is not empty, which would be that of the root, and that does not end
-- in a dot.
unfoldable pub is_path : Bytes → Bool
is_path [] = false
is_path (c ∷ []) = not (c == b'.')
is_path (c ∷ d ∷ rest) = is_path (d ∷ rest)

-- `rfind(c)`: the position of the last byte `c`; `none` stands for `npos`.
unfoldable pub rfind : Bytes → ℕ → Option ℕ
rfind [] c = none
rfind (x ∷ xs) c = elim (rfind xs c) [
  | some i ↦ some (suc i)
  | none ↦ if x == c then some 0 else none
]

-- Whether a string begins with another.
unfoldable pub starts_with : Bytes → Bytes → Bool
starts_with xs [] = true
starts_with [] (y ∷ ys) = false
starts_with (x ∷ xs) (y ∷ ys) = x == y && starts_with xs ys

-- `find(needle)`: the first position at which `needle` stands; `none` stands for `npos`.
unfoldable pub find : Bytes → Bytes → Option ℕ
unfolding starts_with
find [] needle = if starts_with [] needle then some 0 else none
find (x ∷ xs) needle =
    if starts_with (x ∷ xs) needle then some 0 else Option.map suc (find xs needle)

-- `c_str()` as the callee reads it: up to the first NUL byte.
unfoldable pub c_str : Bytes → Bytes
c_str [] = []
c_str (x ∷ xs) = if x == 0 then [] else x ∷ c_str xs

-- ASCII lower case, byte by byte.
abbrev pub lower : ℕ → ℕ
lower c = if leb b'A' c && leb c b'Z' then c + 32 else c

abbrev pub NoByte : ℕ → Bytes → Type 0
NoByte c s = All (λ x. x ≢ c) s

pub eq_bytes_iff : (xs ys : Bytes) → (eq_bytes xs ys ≡ true) ↔ (xs ≡ ys)
unfolding eq_bytes
eq_bytes_iff [] [] = (λ _. refl, λ _. refl)
eq_bytes_iff [] (y ∷ ys) = (λ h. cc, λ h. cc)
eq_bytes_iff (x ∷ xs) [] = (λ h. cc, λ h. cc)
eq_bytes_iff (x ∷ xs) (y ∷ ys) =
    (λ h. ground (arith, (eq_bytes_iff xs ys).0), λ h. ground (arith, (eq_bytes_iff xs ys).1))

pub c_str_lem : (s : Bytes) → NoByte 0 s → c_str s ≡ s
unfolding c_str
c_str_lem [] h = refl
c_str_lem (x ∷ xs) h = ground (arith, c_str_lem xs h.1)

lower-lower : (c : ℕ) → lower (lower c) ≡ lower c
lower-lower c = ground arith

pub map-lower-lower : (s : Bytes) → map lower (map lower s) ≡ map lower s
map-lower-lower [] = refl
map-lower-lower (x ∷ xs) = ap₂ ◌∷◌ (lower-lower x) (map-lower-lower xs)

lower-dot : (c : ℕ) → (lower c == b'.') ≡ (c == b'.')
lower-dot c = ground arith

-- Lower case moves no dot.
pub rfind-lower : (s : Bytes) → rfind (map lower s) b'.' ≡ rfind s b'.'
unfolding rfind
rfind-lower [] = refl
rfind-lower (x ∷ xs) = ground (arith, rfind-lower xs, lower-dot x)

pub rfind-none : (s : Bytes) → NoByte b'.' s → rfind s b'.' ≡ none
unfolding rfind
rfind-none [] h = refl
rfind-none (x ∷ xs) h = ground (arith, rfind-none xs h.1)

-- The last dot of a string is the last dot of a part of it that is followed by none.
pub rfind-append : (s e : Bytes) → NoByte b'.' e → rfind (s ++ b'.' ∷ e) b'.' ≡ some (length s)
unfolding rfind
rfind-append [] e h = ground (arith, rfind-none e h)
rfind-append (x ∷ xs) e h = ground (arith, rfind-append xs e h)
