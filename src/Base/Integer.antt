-- ===== src/Base/Integer.antt =====
-- Signed integers over the native numbers.
use Prim.Native.Nat.{ℕ, ◌-◌, ◌%◌, ◌^◌, max}

-- `negsuc n` is `-(n + 1)`.
pub data ℤ : Type 0 where
  pos : ℕ → ℤ
  negsuc : ℕ → ℤ

-- `std::max` of an integer and a size, which is a size.
unfoldable pub larger : ℤ → ℕ → ℕ
larger (pos n) m = max n m
larger (negsuc n) m = m

-- The conversion to an unsigned integer of 32 bits.
unfoldable pub to_uint32 : ℤ → ℕ
to_uint32 (pos n) = n % 2 ^ 32
to_uint32 (negsuc n) = 2 ^ 32 - 1 - n % 2 ^ 32
