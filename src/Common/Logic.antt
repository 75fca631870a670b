-- ===== src/Common/Logic.antt =====
-- Boolean tests on the native numbers, the conditional, and case splits that keep an equation.
use Prim.Native.Nat.{ℕ, compare, Ordering}
use mathlib.Core.Path.{◌≡◌, refl}
use mathlib.Core.Logic.{◌≢◌, ◌↔◌, ◌⊎◌, inl, inr}
use mathlib.Core.Bool.{Bool, true, false}
use mathlib.Core.Option
use mathlib.Core.Option.{Option, none, some}
use native.Mathlib.Omega.{arith}

abbrev pub ltb : ℕ → ℕ → Bool
ltb a b = elim (compare a b) [ Ordering.lt ↦ true | _ ↦ false ]

abbrev pub leb : ℕ → ℕ → Bool
leb a b = elim (compare a b) [ Ordering.gt ↦ false | _ ↦ true ]

infix 50 ◌==◌
abbrev pub ◌==◌ : ℕ → ℕ → Bool
a == b = elim (compare a b) [ Ordering.eq ↦ true | _ ↦ false ]

infix 1 if◌then◌else◌
abbrev pub if◌then◌else◌ {ℓ} : {A : Type ℓ} → Bool → A → A → A
if true then x else y = x
if false then x else y = y

pub ==_iff : (a b : ℕ) → ((a == b) ≡ true) ↔ (a ≡ b)
==_iff a b = ground arith

pub Bool-cases : (b : Bool) → (b ≡ true) ⊎ (b ≡ false)
Bool-cases true = inl refl
Bool-cases false = inr refl

pub Option-cases {ℓ} : {A : Type ℓ} (o : Option A) → (o ≡ none) ⊎ ((a : A) × (o ≡ some a))
Option-cases none = inl refl
Option-cases (some a) = inr (a, refl)

-- Two tests that pass in the same cases are equal.
pub Bool-eq : (a b : Bool) → (a ≡ true → b ≡ true) → (b ≡ true → a ≡ true) → a ≡ b
Bool-eq true true f g = refl
Bool-eq true false f g = ground (arith, f refl)
Bool-eq false true f g = ground (arith, g refl)
Bool-eq false false f g = refl

-- An outcome is there, and the property holds of it.
abbrev pub Holds {ℓ} : {A : Type ℓ} → (A → Type 0) → Option A → Type 0
Holds P none = ⊥
Holds P (some a) = P a

pub Holds-map {ℓ κ} :
    {A : Type ℓ} {B : Type κ} (P : A → Type 0) (Q : B → Type 0) (f : A → B) (m : Option A)
    → ((a : A) → P a → Q (f a))
    → Holds P m
    → Holds Q (Option.map f m)
Holds-map P Q f none h p = p
Holds-map P Q f (some a) h p = h a p

pub Holds-some {ℓ} :
    {A : Type ℓ} (P : A → Type 0) (m : Option A) (a : A) → Holds P m → m ≡ some a → P a
Holds-some P m a h e = rw e at h

pub Holds-ne-none {ℓ} : {A : Type ℓ} (P : A → Type 0) (m : Option A) → Holds P m → m ≢ none
Holds-ne-none P none h e = h
Holds-ne-none P (some a) h e = cc
