-- ===== src/PropertyTree.antt =====
-- Boost's property trees, of which the sources have no code: an interface, with what the settings
-- (src/c++/systemicai/http/server/settings.h, src/c++/systemicai/http/client/settings.h) rely on.
pub mod Sample
use text.Mathlib.Text.{◌==◌}
use text.Mathlib.TextEquality.{eq_iff}
use advanced_flex_server.Common.{
  ℕ, ◌+◌, ◌^◌, ◌<◌, ◌≤◌, String, Bool, true, false, not, ◌&&◌, List, [], ◌∷◌, ◌++◌, Option, none,
  some, ◌≡◌, refl, arith, Bytes, codes, starts_with, is_path, if◌then◌else◌, Bool-cases, inl, inr,
  ap, ◌∙◌, ℤ, pos, IsInt,
}

-- Writing at path `j` leaves the text at path `k` alone: `k` is neither `j` nor on the way to it.
unfoldable pub separate : String → String → Bool
unfolding starts_with is_path
separate j k =
    is_path (codes k) && not (j == k) && not (starts_with (codes j) (codes k ++ b'.' ∷ []))

-- `find t k` is the text of the node at path `k`; `store` is `put`. Numbers are written and read as
-- decimal text; a text that is no number of the type, or out of its range, gives `none`.
pub record PropertyTree : Type 1 where
  pub Tree : Type 0
  pub empty : Tree
  pub find : Tree → String → Option Bytes
  pub store : Tree → String → Bytes → Tree
  pub print_ℕ : ℕ → Bytes
  pub print_ℤ : ℤ → Bytes
  pub parse_ushort : Bytes → Option ℕ
  pub parse_int : Bytes → Option ℤ
  pub parse_size : Bytes → Option ℕ
  pub find-empty : (k : String) → is_path (codes k) ≡ true → find empty k ≡ none
  pub find-store_self : (t : Tree) (k : String) (v : Bytes) → find (store t k v) k ≡ some v
  pub find-store_ne :
      (t : Tree) (j k : String) (v : Bytes) → separate j k ≡ true → find (store t j v) k ≡ find t k
  pub parse_ushort-print_ℕ : (n : ℕ) → n < 2 ^ 16 → parse_ushort (print_ℕ n) ≡ some n
  pub parse_size-print_ℕ : (n : ℕ) → n < 2 ^ 64 → parse_size (print_ℕ n) ≡ some n
  pub parse_int-print_ℤ : (i : ℤ) → IsInt i → parse_int (print_ℤ i) ≡ some i
  pub parse_int-print_ℕ : (n : ℕ) → n < 2 ^ 31 → parse_int (print_ℕ n) ≡ some (pos n)
  pub parse_ushort_range : (text : Bytes) (n : ℕ) → parse_ushort text ≡ some n → n < 2 ^ 16
  pub parse_size_range : (text : Bytes) (n : ℕ) → parse_size text ≡ some n → n < 2 ^ 64
  pub parse_int_range : (text : Bytes) (i : ℤ) → parse_int text ≡ some i → IsInt i
  pub parse_int-overflow : (n : ℕ) → 2 ^ 31 ≤ n → parse_int (print_ℕ n) ≡ none

-- The text at `k` after a row of writes, where `old` stood there before.
unfoldable pub last_write : String → Option Bytes → List (String × Bytes) → Option Bytes
last_write k old [] = old
last_write k old ((j, v) ∷ rows) = last_write k (if j == k then some v else old) rows

-- Each write is at `k` or leaves it alone.
unfoldable pub fits : String → List (String × Bytes) → Bool
fits k [] = true
fits k ((j, v) ∷ rows) = (if j == k then true else separate j k) && fits k rows

module _ (p : PropertyTree) where
  open p use {Tree, find, store, find-store_self, find-store_ne}

  -- A row of writes, the first one first.
  unfoldable pub store_all : Tree → List (String × Bytes) → Tree
  store_all t [] = t
  store_all t ((j, v) ∷ rows) = store_all (store t j v) rows

  find-store :
      (t : Tree) (j k : String) (v : Bytes)
      → (if j == k then true else separate j k) ≡ true
      → find (store t j v) k ≡ (if j == k then some v else find t k)
  find-store t j k v h = elim (Bool-cases (j == k)) [
    | inl e ↦ rw e (rw ((eq_iff j k).0 e) (find-store_self t k v))
    | inr e ↦ rw e (find-store_ne t j k v (rw e at h))
  ]

  pub find-store_all :
      (t : Tree) (k : String) (rows : List (String × Bytes))
      → fits k rows ≡ true
      → find (store_all t rows) k ≡ last_write k (find t k) rows
  unfolding store_all last_write fits
  find-store_all t k [] h = refl
  find-store_all t k ((j, v) ∷ rows) h =
      find-store_all (store t j v) k rows (ground arith)
      ∙ ap (λ old. last_write k old rows) (find-store t j k v (ground arith))
