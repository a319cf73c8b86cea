-- ===== src/Containers/Golomb/Number.antt =====
-- A bit string of private_set_intersection/cpp/datastructure/golomb.cpp as one number: its bytes are the
-- digits, the first one the lowest.
use open_mined_psi.Base.{
  ℕ, zero, suc, ◌+◌, ◌-◌, ◌*◌, ◌≤◌, ◌<◌, ◌≡◌, refl, sym, ap, ◌∙◌, Bool-cases, inl, inr, ◌==◌,
  bit_or, Bytes, [], ◌∷◌, ◌++◌, length, get_or, set, replicate, arith, get_or-set_self,
  get_or-set_ne, length-set, subst,
}
use open_mined_psi.Base.Shift.{
  low_le, sum-below, shr-zero, shr, shl, low, shr-add, shl-add, shr-low, shr-below, bit_or-shl,
}
use open_mined_psi.Containers.Golomb.{or_byte}

unfoldable pub num : Bytes → ℕ
num [] = 0
num (b ∷ bs) = b + 256 * num bs

-- Every byte is one.
abbrev pub IsBytes : Bytes → Type 0
IsBytes bits = (i : ℕ) → get_or bits i 0 < 256

byte_tail : (b : ℕ) (bs : Bytes) → IsBytes (b ∷ bs) → IsBytes bs
byte_tail b bs h i = h (suc i)

eight : (i : ℕ) → 8 * suc i ≡ suc (suc (suc (suc (suc (suc (suc (suc (8 * i))))))))
eight i = omega arith

pub num-below : (bits : Bytes) → IsBytes bits → num bits < shl (8 * length bits) 1
unfolding num
num-below [] h = omega arith
num-below (b ∷ bs) h = rw (eight (length bs)) (omega (arith, h 0, num-below bs (byte_tail b bs h)))

shr_byte : (b n : ℕ) → b < 256 → shr 8 (b + 256 * n) ≡ n
shr_byte b n h = omega arith

-- Byte `i` of the number.
pub byte-num :
    (bits : Bytes) (i : ℕ) → IsBytes bits → get_or bits i 0 ≡ low 8 (shr (8 * i) (num bits))
unfolding num
byte-num [] i h = omega (arith, shr-zero (8 * i))
byte-num (b ∷ bs) zero h = omega (arith, h 0)
byte-num (b ∷ bs) (suc i) h =
    byte-num bs i (byte_tail b bs h)
    ∙ ap (λ m. low 8 (shr (8 * i) m)) (sym (shr_byte b (num bs) (h 0)))
    ∙ ap (λ k. low 8 (shr k (b + 256 * num bs))) (sym (eight i))

-- The rest of a byte from bit `s`.
pub byte-shr :
    (bits : Bytes) (i s : ℕ)
    → IsBytes bits
    → s ≤ 8
    → shr s (get_or bits i 0) ≡ low (8 - s) (shr (8 * i + s) (num bits))
byte-shr bits i s h q =
    let whole : s + (8 - s) ≡ 8 = omega arith in
    ap (shr s) (byte-num bits i h)
    ∙ ap (λ k. shr s (low k (shr (8 * i) (num bits)))) (sym whole)
    ∙ shr-low s (8 - s) (shr (8 * i) (num bits))
    ∙ ap (low (8 - s)) (sym (shr-add (8 * i) s (num bits)))

num-set :
    (bits : Bytes) (i d : ℕ)
    → i < length bits
    → num (set bits i (get_or bits i 0 + d)) ≡ num bits + shl (8 * i) d
unfolding num
num-set [] i d h = elim h [ ]
num-set (b ∷ bs) zero d h = omega arith
num-set (b ∷ bs) (suc i) d h = rw (eight i) (omega (arith, num-set bs i d (omega arith)))

pub num-zeros : (bits : Bytes) (k : ℕ) → num (bits ++ replicate k 0) ≡ num bits
unfolding num
num-zeros [] zero = refl
num-zeros [] (suc k) = omega (arith, num-zeros [] k)
num-zeros (b ∷ bs) k = omega (arith, num-zeros bs k)

pub IsBytes-zeros : (bits : Bytes) (k : ℕ) → IsBytes bits → IsBytes (bits ++ replicate k 0)
IsBytes-zeros [] zero h i = h i
IsBytes-zeros [] (suc k) h zero = omega arith
IsBytes-zeros [] (suc k) h (suc i) = IsBytes-zeros [] k h i
IsBytes-zeros (b ∷ bs) k h zero = h 0
IsBytes-zeros (b ∷ bs) k h (suc i) = IsBytes-zeros bs k (byte_tail b bs h) i

-- A write above the last bit of the number, within one byte.
pub record Written (bits bits' : Bytes) (p x : ℕ) : Type 0 where
  pub value : num bits' ≡ num bits + shl p x
  pub size : length bits' ≡ length bits
  pub bytes : IsBytes bits'

pub or_byte-Written :
    (bits : Bytes) (i s x : ℕ)
    → IsBytes bits
    → s ≤ 8
    → num bits < shl (8 * i + s) 1
    → x < shl (8 - s) 1
    → i < length bits
    → Written bits (or_byte bits i (shl s x)) (8 * i + s) x
or_byte-Written bits i s x h q above fits inside =
    let old = get_or bits i 0 in
    let shifted : shr (8 * i) (num bits) < shl s 1 = shr-below (8 * i) s (num bits) above in
    let below : old < shl s 1 =
      omega (arith, byte-num bits i h, low_le 8 (shr (8 * i) (num bits))) in
    let sum : bit_or old (shl s x) ≡ old + shl s x = bit_or-shl s old x below in
    let whole : s + (8 - s) ≡ 8 = omega arith in
    let small : old + shl s x < 256 =
      subst (λ k. old + shl s x < shl k 1) whole (sum-below s (8 - s) old x below fits) in
    record {
      value =
          ap (λ v. num (set bits i v)) sum
          ∙ num-set bits i (shl s x) inside
          ∙ ap (λ m. num bits + m) (sym (shl-add (8 * i) s x));
      size = length-set bits i (bit_or old (shl s x));
      bytes = λ j. elim (Bool-cases (j == i)) [
        | inl same ↦
            let e : j ≡ i = ground arith in
            rw (e, get_or-set_self bits i (bit_or old (shl s x)) 0 inside, sum) small
        | inr other ↦ rw (get_or-set_ne bits i j (bit_or old (shl s x)) 0 (ground arith)) (h j)
      ];
    }
