-- ===== src/Common/Int.antt =====
-- The signed integers, for `int`; `negsuc n` is -(n + 1).
use Prim.Native.Nat.{ℕ, ◌-◌, ◌^◌, ◌<◌, suc}

pub data ℤ : Type 0 where
  pos : ℕ → ℤ
  negsuc : ℕ → ℤ

-- The range of a 32-bit `int`.
abbrev pub IsInt : ℤ → Type 0
IsInt (pos n) = n < 2 ^ 31
IsInt (negsuc n) = n < 2 ^ 31

-- The conversion of an `int` to a 64-bit `std::size_t`.
abbrev pub to_size : ℤ → ℕ
to_size (pos n) = n
to_size (negsuc n) = 2 ^ 64 - suc n
