-- ===== src/Base/Bits.antt =====
-- A bit of a word, `word |= 1 << k` and `std::bitset::count`, from the digit recursion of `bit_or`.
use Prim.Native.Nat.{
  ℕ, zero, suc, ◌+◌, ◌*◌, ◌/◌, ◌%◌, ◌^◌, ◌≤◌, ◌<◌, max, bit_or, digits, bit_or-bitwise,
}
use mathlib.Core.Path.{◌≡◌, refl, ap}
use mathlib.Core.Logic.{◌≢◌}
use native.Mathlib.Omega.{arith}
use native.Mathlib.Nat.{pow-suc}

abbrev or_digits : ℕ → ℕ → ℕ → ℕ
or_digits n a b = digits (λ b. b) max n a b

or_digits_fuel : (n m a b : ℕ) → a ≤ n → a ≤ m → or_digits n a b ≡ or_digits m a b
or_digits_fuel zero zero a b p q = refl
or_digits_fuel zero (suc m) zero b p q = refl
or_digits_fuel zero (suc m) (suc a) b p q = absurd (omega arith)
or_digits_fuel (suc n) zero zero b p q = refl
or_digits_fuel (suc n) zero (suc a) b p q = absurd (omega arith)
or_digits_fuel (suc n) (suc m) zero b p q = refl
or_digits_fuel (suc n) (suc m) (suc a) b p q =
    omega (arith, or_digits_fuel n m (suc a / 2) (b / 2) (omega arith) (omega arith))

pub zero-bit_or : (b : ℕ) → bit_or 0 b ≡ b
zero-bit_or b = bit_or-bitwise 0 b

pub bit_or_step : (a b : ℕ) → bit_or a b ≡ bit_or (a / 2) (b / 2) * 2 + max (a % 2) (b % 2)
bit_or_step zero b = omega (arith, zero-bit_or b, zero-bit_or (b / 2))
bit_or_step (suc a) b = omega (
  arith,
  bit_or-bitwise (suc a) b,
  bit_or-bitwise (suc a / 2) (b / 2),
  or_digits_fuel a (suc a / 2) (suc a / 2) (b / 2) (omega arith) (omega arith),
)

bit_or-zero_fuel : (n a : ℕ) → a ≤ n → bit_or a 0 ≡ a
bit_or-zero_fuel n zero h = refl
bit_or-zero_fuel zero (suc a) h = absurd (omega arith)
bit_or-zero_fuel (suc n) (suc a) h =
    omega (arith, bit_or_step (suc a) 0, bit_or-zero_fuel n (suc a / 2) (omega arith))

pub bit_or-zero : (a : ℕ) → bit_or a 0 ≡ a
bit_or-zero a = bit_or-zero_fuel a a (omega arith)

-- Bit `k` of `w`, that is `(w >> k) & 1`.
abbrev pub bit : ℕ → ℕ → ℕ
bit zero w = w % 2
bit (suc k) w = bit k (w / 2)

pub bit-le-one : (k w : ℕ) → bit k w ≤ 1
bit-le-one zero w = omega arith
bit-le-one (suc k) w = bit-le-one k (w / 2)

pub bit-zero : (k : ℕ) → bit k 0 ≡ 0
bit-zero zero = refl
bit-zero (suc k) = bit-zero k

-- `w | (1 << k)`
pub set_bit : ℕ → ℕ → ℕ
set_bit k w = bit_or w (2 ^ k)

pub set_bit_zero : (w : ℕ) → set_bit 0 w ≡ w / 2 * 2 + 1
unfolding set_bit
set_bit_zero w = omega (arith, bit_or_step w 1, bit_or-zero (w / 2))

pub set_bit-suc : (k w : ℕ) → set_bit (suc k) w ≡ set_bit k (w / 2) * 2 + w % 2
unfolding set_bit
set_bit-suc k w =
    let half : 2 ^ suc k / 2 ≡ 2 ^ k = omega (arith, pow-suc 2 k) in
    rw (bit_or_step w (2 ^ suc k), half) (omega (arith, pow-suc 2 k))

half-set_bit_zero : (w : ℕ) → set_bit 0 w / 2 ≡ w / 2
half-set_bit_zero w = omega (arith, set_bit_zero w)

half-set_bit-suc : (k w : ℕ) → set_bit (suc k) w / 2 ≡ set_bit k (w / 2)
half-set_bit-suc k w = omega (arith, set_bit-suc k w)

pub bit-set_bit_self : (k w : ℕ) → bit k (set_bit k w) ≡ 1
bit-set_bit_self zero w = omega (arith, set_bit_zero w)
bit-set_bit_self (suc k) w = rw (half-set_bit-suc k w) (bit-set_bit_self k (w / 2))

pub bit-set_bit_ne : (j k w : ℕ) → j ≢ k → bit j (set_bit k w) ≡ bit j w
bit-set_bit_ne zero zero w h = absurd (h refl)
bit-set_bit_ne zero (suc k) w h = omega (arith, set_bit-suc k w)
bit-set_bit_ne (suc j) zero w h = rw (half-set_bit_zero w)
bit-set_bit_ne (suc j) (suc k) w h =
    rw (half-set_bit-suc k w) (bit-set_bit_ne j k (w / 2) (λ e. h (ap suc e)))

-- `std::bitset<n>(w).count()`
pub popcount : ℕ → ℕ → ℕ
popcount zero w = 0
popcount (suc n) w = w % 2 + popcount n (w / 2)

pub popcount-zero : (n : ℕ) → popcount n 0 ≡ 0
unfolding popcount
popcount-zero zero = refl
popcount-zero (suc n) = omega (arith, popcount-zero n)

-- A set bit counts once, however often it is set.
pub popcount-set_bit : (n k w : ℕ) → k < n → popcount n (set_bit k w) + bit k w ≡ popcount n w + 1
unfolding popcount
popcount-set_bit zero k w h = elim h [ ]
popcount-set_bit (suc n) zero w h = rw (half-set_bit_zero w) (omega (arith, set_bit_zero w))
popcount-set_bit (suc n) (suc k) w h =
    rw (half-set_bit-suc k w)
      (omega (arith, set_bit-suc k w, popcount-set_bit n k (w / 2) (omega arith)))
