-- ===== src/Match/Slots/Memory.antt =====
-- The bytes of a setup block, `uint8_t[]` by offset, and `std::memcpy` into it.
use open_mined_psi.Base.{
  ℕ, zero, suc, ◌+◌, ◌≤◌, ◌<◌, ◌≡◌, refl, ap₂, Bytes, [], ◌∷◌, length, ◌==◌, if◌then◌else◌, arith,
}

abbrev pub Block : Type 0
Block = ℕ → ℕ

-- `std::make_unique<uint8_t[]>(n)` is zeroed.
abbrev pub zero_block : Block
zero_block i = 0

unfoldable pub update : Block → ℕ → ℕ → Block
update b at v i = if i == at then v else b i

unfoldable pub memcpy : Block → ℕ → Bytes → Block
unfolding update
memcpy b at [] = b
memcpy b at (x ∷ xs) = memcpy (update b at x) (at + 1) xs

unfoldable pub read : Block → ℕ → ℕ → Bytes
read b at zero = []
read b at (suc n) = b at ∷ read b (at + 1) n

pub memcpy_outside :
    (b : Block) (at : ℕ) (xs : Bytes) (i : ℕ)
    → (i < at → memcpy b at xs i ≡ b i) × (at + length xs ≤ i → memcpy b at xs i ≡ b i)
unfolding memcpy update
memcpy_outside b at [] i = (λ _. refl, λ _. refl)
memcpy_outside b at (x ∷ xs) i =
    let (below, above) = memcpy_outside (update b at x) (at + 1) xs i in
    (λ h. ground (arith, below (omega arith)), λ h. ground (arith, above (omega arith)))

pub read-memcpy_self : (b : Block) (at : ℕ) (xs : Bytes) → read (memcpy b at xs) at (length xs) ≡ xs
unfolding read memcpy update
read-memcpy_self b at [] = refl
read-memcpy_self b at (x ∷ xs) =
    ap₂ ◌∷◌ (ground (arith, (memcpy_outside (update b at x) (at + 1) xs at).0 (omega arith)))
      (read-memcpy_self (update b at x) (at + 1) xs)

-- Two blocks that agree on a range read alike there.
pub read_ext :
    (b c : Block) (at n : ℕ)
    → ((i : ℕ) → at ≤ i → i < at + n → b i ≡ c i)
    → read b at n ≡ read c at n
unfolding read
read_ext b c at zero h = refl
read_ext b c at (suc n) h =
    ap₂ ◌∷◌ (h at (omega arith) (omega arith))
      (read_ext b c (at + 1) n (λ i p q. h i (omega arith) (omega arith)))
