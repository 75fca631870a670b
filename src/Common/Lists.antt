-- ===== src/Common/Lists.antt =====
-- Lists measured and cut by native numbers, under the names of the library.
use Prim.Native.Nat.{ℕ, zero, suc, ◌+◌, ◌-◌}
use mathlib.Core.Path.{◌≡◌, refl, ap}
use mathlib.Core.Bool.{Bool, true, false}
use mathlib.Core.List.{List, [], ◌∷◌, ◌++◌, map}
use mathlib.Core.Option.{Option, none, some, some-injective}
use native.Mathlib.Omega.{arith}

sub_one : (n : ℕ) → suc n - 1 ≡ n
sub_one n = omega arith

module _ {ℓ} {A : Type ℓ} where
  abbrev pub length : List A → ℕ
  length [] = 0
  length (x ∷ xs) = suc (length xs)

  -- `empty()` of a container.
  abbrev pub is_empty : List A → Bool
  is_empty [] = true
  is_empty (x ∷ xs) = false

  -- `back()` of a container, `none` where it is empty.
  abbrev pub back? : List A → Option A
  back? [] = none
  back? (x ∷ []) = some x
  back? (x ∷ y ∷ xs) = back? (y ∷ xs)

  -- `front()` of a container, `none` where it is empty.
  abbrev pub front? : List A → Option A
  front? [] = none
  front? (x ∷ xs) = some x

  abbrev pub take : ℕ → List A → List A
  take zero xs = []
  take (suc n) [] = []
  take (suc n) (x ∷ xs) = x ∷ take n xs

  abbrev pub drop : ℕ → List A → List A
  drop zero xs = xs
  drop (suc n) [] = []
  drop (suc n) (x ∷ xs) = drop n xs

  pub length-append : (xs ys : List A) → length (xs ++ ys) ≡ length xs + length ys
  length-append [] ys = omega arith
  length-append (x ∷ xs) ys = omega (arith, length-append xs ys)

  pub drop-append : (xs ys : List A) → drop (length xs) (xs ++ ys) ≡ ys
  drop-append [] ys = refl
  drop-append (x ∷ xs) ys = drop-append xs ys

  pub drop-length : (xs : List A) → drop (length xs) xs ≡ []
  drop-length [] = refl
  drop-length (x ∷ xs) = drop-length xs

  pub eq_nil : (xs : List A) → length xs ≡ 0 → xs ≡ []
  eq_nil [] h = refl
  eq_nil (x ∷ xs) h = absurd (omega arith)

  -- Cutting the last element off a list that has one.
  pub take-back : (xs : List A) (a : A) → back? xs ≡ some a → take (length xs - 1) xs ++ a ∷ [] ≡ xs
  take-back [] a h = cc
  take-back (x ∷ []) a h = ground (arith, some-injective h)
  take-back (x ∷ y ∷ xs) a h =
      rw (sub_one (suc (length xs)))
        (ap (◌∷◌ x) (rw (sub_one (length xs)) at (take-back (y ∷ xs) a h)))

pub drop-map {ℓ κ} :
    {A : Type ℓ} {B : Type κ} (n : ℕ) (f : A → B) (xs : List A)
    → drop n (map f xs) ≡ map f (drop n xs)
drop-map zero f xs = refl
drop-map (suc n) f [] = refl
drop-map (suc n) f (x ∷ xs) = drop-map n f xs

pub length-map {ℓ κ} :
    {A : Type ℓ} {B : Type κ} (f : A → B) (xs : List A) → length (map f xs) ≡ length xs
length-map f [] = refl
length-map f (x ∷ xs) = ap suc (length-map f xs)

module _ {ℓ κ} {A : Type ℓ} (P : A → Type κ) where
  abbrev pub All : List A → Type κ
  All [] = Unit
  All (x ∷ xs) = P x × All xs

  pub All-append : (xs ys : List A) → All xs → All ys → All (xs ++ ys)
  All-append [] ys hx hy = hy
  All-append (x ∷ xs) ys hx hy = (hx.0, All-append xs ys hx.1 hy)

  pub All-left : (xs ys : List A) → All (xs ++ ys) → All xs
  All-left [] ys h = tt
  All-left (x ∷ xs) ys h = (h.0, All-left xs ys h.1)

  pub All-take : (n : ℕ) (xs : List A) → All xs → All (take n xs)
  All-take zero xs h = tt
  All-take (suc n) [] h = tt
  All-take (suc n) (x ∷ xs) h = (h.0, All-take n xs h.1)

  -- Of all elements but the last.
  abbrev pub ButLast : List A → Type κ
  ButLast [] = Unit
  ButLast (x ∷ []) = Unit
  ButLast (x ∷ y ∷ ys) = P x × ButLast (y ∷ ys)

  pub All-ButLast : (xs : List A) → All xs → ButLast xs
  All-ButLast [] v = tt
  All-ButLast (x ∷ []) v = tt
  All-ButLast (x ∷ y ∷ ys) (v, vs) = (v, All-ButLast (y ∷ ys) vs)

  pub ButLast-append : (xs : List A) (x : A) → All xs → ButLast (xs ++ x ∷ [])
  ButLast-append [] x v = tt
  ButLast-append (y ∷ []) x v = v
  ButLast-append (y ∷ z ∷ zs) x (v, vs) = (v, ButLast-append (z ∷ zs) x vs)

  pub ButLast-split : (xs : List A) (x y : A) (ys : List A) → ButLast (xs ++ x ∷ y ∷ ys) → P x
  ButLast-split [] x y ys v = v.0
  ButLast-split (a ∷ []) x y ys v = v.1.0
  ButLast-split (a ∷ b ∷ xs) x y ys v = ButLast-split (b ∷ xs) x y ys v.1
