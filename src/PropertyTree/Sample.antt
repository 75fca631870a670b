-- ===== src/PropertyTree/Sample.antt =====
-- A property tree for the tests: a function on paths, with a number as a text of one or two codes.
use text.Mathlib.Text.{◌==◌}
use text.Mathlib.TextPositions.{eq_refl}
use advanced_flex_server.Common.{
  ℕ, ◌^◌, ◌<◌, ◌≤◌, String, true, [], ◌∷◌, Option, none, some, ◌≡◌, refl, arith, Bytes, ltb,
  if◌then◌else◌, ℤ, pos, negsuc, IsInt,
}
use advanced_flex_server.PropertyTree.{PropertyTree, separate}

abbrev pub within : ℕ → Bytes → Option ℕ
within bound (n ∷ []) = if ltb n bound then some n else none
within bound _ = none

abbrev pub int_text : ℤ → Bytes
int_text (pos n) = n ∷ []
int_text (negsuc n) = n ∷ 1 ∷ []

abbrev pub read_int : Bytes → Option ℤ
read_int (n ∷ []) = if ltb n (2 ^ 31) then some (pos n) else none
read_int (n ∷ _ ∷ []) = if ltb n (2 ^ 31) then some (negsuc n) else none
read_int _ = none

abbrev pub update : (String → Option Bytes) → String → Bytes → String → Option Bytes
update t j v k = if j == k then some v else t k

pub find-update_self :
    (t : String → Option Bytes) (k : String) (v : Bytes) → update t k v k ≡ some v
find-update_self t k v = rw (eq_refl k)

pub find-update_ne :
    (t : String → Option Bytes) (j k : String) (v : Bytes)
    → separate j k ≡ true
    → update t j v k ≡ t k
unfolding separate
find-update_ne t j k v h = ground arith

pub within-lem : (bound n : ℕ) → n < bound → within bound (n ∷ []) ≡ some n
within-lem bound n h = ground arith

pub read_int-int_text : (i : ℤ) → IsInt i → read_int (int_text i) ≡ some i
read_int-int_text (pos n) h = ground arith
read_int-int_text (negsuc n) h = ground arith

pub read_int-overflow : (n : ℕ) → 2 ^ 31 ≤ n → read_int (n ∷ []) ≡ none
read_int-overflow n h = ground arith

pub within_range : (bound : ℕ) (text : Bytes) (n : ℕ) → within bound text ≡ some n → n < bound
within_range bound [] n h = ground arith
within_range bound (m ∷ []) n h = ground arith
within_range bound (m ∷ k ∷ ms) n h = ground arith

pub read_int_range : (text : Bytes) (i : ℤ) → read_int text ≡ some i → IsInt i
read_int_range [] i h = ground arith
read_int_range (m ∷ []) i h = ground arith
read_int_range (m ∷ k ∷ []) i h = ground arith
read_int_range (m ∷ k ∷ l ∷ ms) i h = ground arith

abbrev pub sample_tree : PropertyTree
sample_tree = record {
  Tree = String → Option Bytes;
  empty = λ _. none;
  find = λ t k. t k;
  store = update;
  print_ℕ = λ n. n ∷ [];
  print_ℤ = int_text;
  parse_ushort = within (2 ^ 16);
  parse_int = read_int;
  parse_size = within (2 ^ 64);
  find-empty = λ k path. refl;
  find-store_self = find-update_self;
  find-store_ne = find-update_ne;
  parse_ushort-print_ℕ = within-lem (2 ^ 16);
  parse_size-print_ℕ = within-lem (2 ^ 64);
  parse_int-print_ℤ = read_int-int_text;
  parse_int-print_ℕ = λ n. read_int-int_text (pos n);
  parse_ushort_range = within_range (2 ^ 16);
  parse_size_range = within_range (2 ^ 64);
  parse_int_range = read_int_range;
  parse_int-overflow = read_int-overflow;
}
