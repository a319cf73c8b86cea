-- ===== src/Base/Shift.antt =====
-- Shifts and masks by a number of bits that is a variable, as recursions on the number of bits.
use Prim.Native.Nat.{ℕ, zero, suc, ◌+◌, ◌-◌, ◌*◌, ◌/◌, ◌%◌, ◌^◌, ◌≤◌, ◌<◌, bit_or}
use mathlib.Core.Path.{◌≡◌, refl, sym, ap, ◌∙◌}
use native.Mathlib.Omega.{arith}
use native.Mathlib.Nat.{
  pow-succ', div-div-eq-div-mul, add-mul-mod_self_left, mod-eq_of_lt, mul_assoc, mul_comm, zero-add,
  suc-add,
}
use open_mined_psi.Base.Bits.{zero-bit_or, bit_or-zero, bit_or_step}

-- `n >> k`
abbrev pub shr : ℕ → ℕ → ℕ
shr zero n = n
shr (suc k) n = shr k (n / 2)

-- `n << k`
abbrev pub shl : ℕ → ℕ → ℕ
shl zero n = n
shl (suc k) n = 2 * shl k n

-- The lowest `k` bits of `n`.
abbrev pub low : ℕ → ℕ → ℕ
low zero n = 0
low (suc k) n = n % 2 + 2 * low k (n / 2)

pub div-shr : (k n : ℕ) → n / 2 ^ k ≡ shr k n
div-shr zero n = omega arith
div-shr (suc k) n = rw (pow-succ' 2 k) (sym (div-div-eq-div-mul n 2 (2 ^ k)) ∙ div-shr k (n / 2))

pub mul-shl : (k n : ℕ) → n * 2 ^ k ≡ shl k n
mul-shl zero n = omega arith
mul-shl (suc k) n = rw (pow-succ' 2 k) (
    mul_comm n (2 * 2 ^ k)
    ∙ mul_assoc 2 (2 ^ k) n
    ∙ ap (λ m. 2 * m) (mul_comm (2 ^ k) n ∙ mul-shl k n))

pub low-below : (k n : ℕ) → low k n < shl k 1
low-below zero n = omega arith
low-below (suc k) n = omega (arith, low-below k (n / 2))

pub low-add-shl : (k n : ℕ) → low k n + shl k (shr k n) ≡ n
low-add-shl zero n = omega arith
low-add-shl (suc k) n = omega (arith, low-add-shl k (n / 2))

pub pow-shl : (k : ℕ) → 2 ^ k ≡ shl k 1
pow-shl zero = refl
pow-shl (suc k) = omega (arith, pow-succ' 2 k, pow-shl k)

pub mod-low : (k n : ℕ) → n % 2 ^ k ≡ low k n
mod-low k n =
    let whole : low k n + 2 ^ k * shr k n ≡ n =
      ap (λ m. low k n + m) (mul_comm (2 ^ k) (shr k n) ∙ mul-shl k (shr k n)) ∙ low-add-shl k n in
    let below : low k n < 2 ^ k = omega (arith, low-below k n, pow-shl k) in
    ap (λ m. m % 2 ^ k) (sym whole)
    ∙ add-mul-mod_self_left (low k n) (2 ^ k) (shr k n)
    ∙ mod-eq_of_lt below

pub shr-add : (j k n : ℕ) → shr (j + k) n ≡ shr k (shr j n)
shr-add zero k n = rw (zero-add k)
shr-add (suc j) k n = rw (suc-add j k) (shr-add j k (n / 2))

pub shl-add : (j k n : ℕ) → shl (j + k) n ≡ shl j (shl k n)
shl-add zero k n = rw (zero-add k)
shl-add (suc j) k n = rw (suc-add j k) (ap (λ m. 2 * m) (shl-add j k n))

pub shr-zero : (k : ℕ) → shr k 0 ≡ 0
shr-zero zero = refl
shr-zero (suc k) = shr-zero k

pub low_le : (k n : ℕ) → low k n ≤ n
low_le zero n = omega arith
low_le (suc k) n = omega (arith, low_le k (n / 2))

pub sum-below : (j k a x : ℕ) → a < shl j 1 → x < shl k 1 → a + shl j x < shl (j + k) 1
sum-below zero k a x h q = let none : a ≡ 0 = omega arith in rw (none, zero-add k) (omega arith)
sum-below (suc j) k a x h q =
    rw (suc-add j k) (omega (arith, sum-below j k (a / 2) x (omega arith) q))

-- What is shifted in and out again.
pub shr-shl : (k n : ℕ) → shr k (shl k n) ≡ n
shr-shl zero n = refl
shr-shl (suc k) n = let half : 2 * shl k n / 2 ≡ shl k n = omega arith in rw half (shr-shl k n)

pub shl_sum : (k a b : ℕ) → shl k (a + b) ≡ shl k a + shl k b
shl_sum zero a b = refl
shl_sum (suc k) a b = omega (arith, shl_sum k a b)

pub shl-suc : (k n : ℕ) → shl k (2 * n) ≡ 2 * shl k n
shl-suc zero n = refl
shl-suc (suc k) n = ap (λ m. 2 * m) (shl-suc k n)

pub shr-below : (j k n : ℕ) → n < shl (j + k) 1 → shr j n < shl k 1
shr-below zero k n h = rw (zero-add k) at h
shr-below (suc j) k n h = let e = rw (suc-add j k) at h in shr-below j k (n / 2) (omega arith)

pub low-of_below : (k n : ℕ) → n < shl k 1 → low k n ≡ n
low-of_below zero n h = omega arith
low-of_below (suc k) n h = omega (arith, low-of_below k (n / 2) (omega arith))

pub shr-of_below : (k n : ℕ) → n < shl k 1 → shr k n ≡ 0
shr-of_below zero n h = omega arith
shr-of_below (suc k) n h = shr-of_below k (n / 2) (omega arith)

pub shr-low : (j k n : ℕ) → shr j (low (j + k) n) ≡ low k (shr j n)
shr-low zero k n = rw (zero-add k)
shr-low (suc j) k n =
    let half : low (suc (j + k)) n / 2 ≡ low (j + k) (n / 2) = omega arith in
    rw (suc-add j k, half) (shr-low j k (n / 2))

pub low-low : (j k n : ℕ) → low j (low (j + k) n) ≡ low j n
low-low zero k n = refl
low-low (suc j) k n =
    let half : low (suc (j + k)) n / 2 ≡ low (j + k) (n / 2) = omega arith in
    rw (suc-add j k, half) (omega (arith, low-low j k (n / 2)))

pub low-add : (j k n : ℕ) → low (j + k) n ≡ low j n + shl j (low k (shr j n))
low-add zero k n = rw (zero-add k) (omega arith)
low-add (suc j) k n = rw (suc-add j k) (omega (arith, low-add j k (n / 2)))

pub low-shl : (j k n : ℕ) → low (j + k) (shl j n) ≡ shl j (low k n)
low-shl zero k n = rw (zero-add k)
low-shl (suc j) k n =
    let half : 2 * shl j n / 2 ≡ shl j n = omega arith in
    rw (suc-add j k, half) (omega (arith, low-shl j k n))

-- The bits of two numbers that do not overlap add up.
pub bit_or-shl : (k v x : ℕ) → v < shl k 1 → bit_or v (shl k x) ≡ v + shl k x
bit_or-shl zero v x h = let none : v ≡ 0 = omega arith in rw none (zero-bit_or x ∙ omega arith)
bit_or-shl (suc k) v x h =
    let half : 2 * shl k x / 2 ≡ shl k x = omega arith in
    bit_or_step v (2 * shl k x) ∙ rw half (omega (arith, bit_or-shl k (v / 2) x (omega arith)))

pub shl_pos : (k : ℕ) → 0 < shl k 1
shl_pos zero = omega arith
shl_pos (suc k) = omega (arith, shl_pos k)

pub shl_mono : (j k : ℕ) → shl j 1 ≤ shl (j + k) 1
shl_mono zero k = rw (zero-add k) (omega (arith, shl_pos k))
shl_mono (suc j) k = rw (suc-add j k) (omega (arith, shl_mono j k))

pub shl-zero : (k : ℕ) → shl k 0 ≡ 0
shl-zero zero = refl
shl-zero (suc k) = omega (arith, shl-zero k)

-- A shift by `w` leaves `w` bits fewer.
pub shr_room : (w m r : ℕ) → r < shl m 1 → shr w r < shl (m - w) 1
shr_room zero m r h = let e : m - 0 ≡ m = omega arith in rw e h
shr_room (suc w) zero r h =
    let e : 0 - suc w ≡ 0 = omega arith in
    let none : r / 2 ≡ 0 = omega arith in rw (e, none, shr-zero w) (omega arith)
shr_room (suc w) (suc m) r h =
    let e : suc m - suc w ≡ m - w = omega arith in rw e (shr_room w m (r / 2) (omega arith))

-- The two parts of a number, out again.
pub shr-sum : (k a x : ℕ) → a < shl k 1 → shr k (a + shl k x) ≡ x
shr-sum zero a x h = omega arith
shr-sum (suc k) a x h =
    let half : (a + 2 * shl k x) / 2 ≡ a / 2 + shl k x = omega arith in
    rw half (shr-sum k (a / 2) x (omega arith))

pub low-sum : (k a x : ℕ) → a < shl k 1 → low k (a + shl k x) ≡ a
low-sum zero a x h = omega arith
low-sum (suc k) a x h =
    let half : (a + 2 * shl k x) / 2 ≡ a / 2 + shl k x = omega arith in
    rw half (omega (arith, low-sum k (a / 2) x (omega arith)))

pub shl-bit_or : (k x v : ℕ) → v < shl k 1 → bit_or (shl k x) v ≡ shl k x + v
shl-bit_or zero x v h = let none : v ≡ 0 = omega arith in rw none (bit_or-zero x ∙ omega arith)
shl-bit_or (suc k) x v h =
    let half : 2 * shl k x / 2 ≡ shl k x = omega arith in
    bit_or_step (2 * shl k x) v ∙ rw half (omega (arith, shl-bit_or k x (v / 2) (omega arith)))

pub low-zero : (k : ℕ) → low k 0 ≡ 0
low-zero zero = refl
low-zero (suc k) = omega (arith, low-zero k)
