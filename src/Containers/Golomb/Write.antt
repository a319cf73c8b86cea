-- ===== src/Containers/Golomb/Write.antt =====
-- What `golomb_compress` of private_set_intersection/cpp/datastructure/golomb.cpp writes, as a number.
use open_mined_psi.Base.{
  ℕ, zero, suc, ◌+◌, ◌-◌, ◌*◌, ◌/◌, ◌%◌, ◌^◌, ◌≤◌, ◌<◌, ◌≡◌, refl, sym, ap, ◌∙◌, subst, Bool-cases,
  inl, inr, ltb, Bytes, [], ◌++◌, length, replicate, arith, length-append, length-replicate,
}
use open_mined_psi.Base.Shift.{
  shr, shl, low, low-below, low-add-shl, low-shl, shr-add, shl-add, shl_sum, shl-zero, sum-below,
  shr_room, shl_mono, shl_pos, div-shr, mul-shl, mod-low, pow-shl,
}
use open_mined_psi.Containers.Golomb.{write_remainder, write_delta, or_byte}
use open_mined_psi.Containers.Golomb.Number.{
  num, IsBytes, Written, or_byte-Written, num-zeros, IsBytes-zeros,
}

-- The bits of a remainder that a byte takes from bit `s` on.
byte_part : (r idx s : ℕ) → s ≤ 8 → r / 2 ^ idx * 2 ^ s % 256 ≡ shl s (low (8 - s) (shr idx r))
byte_part r idx s h =
    let whole : s + (8 - s) ≡ 8 = omega arith in
    ap (λ x. x * 2 ^ s % 256) (div-shr idx r)
    ∙ ap (λ x. x % 256) (mul-shl s (shr idx r))
    ∙ mod-low 8 (shl s (shr idx r))
    ∙ ap (λ k. low k (shl s (shr idx r))) (sym whole)
    ∙ low-shl s (8 - s) (shr idx r)

ended :
    (div r idx p : ℕ) (bits : Bytes)
    → IsBytes bits
    → shr idx r < shl (div - idx) 1
    → div ≤ idx
    → Written bits bits p (shr idx r)
ended div r idx p bits h fits over =
    let none_left : div - idx ≡ 0 = omega arith in
    let small : shr idx r < shl 0 1 = subst (λ k. shr idx r < shl k 1) none_left fits in
    let none : shr idx r ≡ 0 = omega arith in
    record { value = rw none (omega (arith, shl-zero p)); size = refl; bytes = h }

-- One byte, then the rest behind it.
two_writes :
    (bits bits' bits'' : Bytes) (p w p' r : ℕ)
    → p' ≡ p + w
    → Written bits bits' p (low w r)
    → Written bits' bits'' p' (shr w r)
    → Written bits bits'' p r
two_writes bits bits' bits'' p w p' r next a b = record {
  value =
      let parts = ap (shl p) (sym (low-add-shl w r)) ∙ shl_sum p (low w r) (shl w (shr w r)) in
      let moved = ap (λ k. shl k (shr w r)) next ∙ shl-add p w (shr w r) in
      omega (arith, a.value, b.value, parts, moved);
  size = b.size ∙ a.size;
  bytes = b.bytes;
}

write_remainder-Written :
    (fuel div r idx s i : ℕ) (bits : Bytes)
    → IsBytes bits
    → s < 8
    → num bits < shl (8 * i + s) 1
    → shr idx r < shl (div - idx) 1
    → div ≤ idx + fuel
    → 8 * i + s + (div - idx) ≤ 8 * length bits
    → Written bits (write_remainder fuel div r idx s i bits) (8 * i + s) (shr idx r)
unfolding write_remainder
write_remainder-Written zero div r idx s i bits h q above fits enough room =
    ended div r idx (8 * i + s) bits h fits (omega arith)
write_remainder-Written (suc fuel) div r idx s i bits h q above fits enough room =
    elim (Bool-cases (ltb idx div)) [
      | inr over ↦
          rw (over, write_remainder) (ended div r idx (8 * i + s) bits h fits (ground arith))
      | inl more ↦
          let w : ℕ = 8 - s in
          let left : idx < div = ground arith in
          let first =
            or_byte-Written bits i s (low w (shr idx r)) h (omega arith) above
              (low-below w (shr idx r)) (omega arith) in
          let next : 8 * (i + 1) + 0 ≡ 8 * i + s + w = omega arith in
          let bits' = or_byte bits i (shl s (low w (shr idx r))) in
          let bound =
            sum-below (8 * i + s) w (num bits) (low w (shr idx r)) above
              (low-below w (shr idx r)) in
          let above' : num bits' < shl (8 * (i + 1) + 0) 1 =
            subst (λ k. num bits' < shl k 1) (sym next) (omega (arith, bound, first.value)) in
          let fewer : div - (idx + w) ≡ div - idx - w = omega arith in
          let fits' : shr (idx + w) r < shl (div - (idx + w)) 1 =
            rw (shr-add idx w r, fewer) (shr_room w (div - idx) (shr idx r) fits) in
          let rest =
            write_remainder-Written fuel div r (idx + w) 0 (i + 1) bits' first.bytes (omega arith)
              above' fits' (omega arith) (omega (arith, first.size)) in
          let byte = byte_part r idx s (omega arith) in
          rw (more, byte, write_remainder)
            (two_writes bits bits' _ (8 * i + s) w (8 * (i + 1) + 0) (shr idx r) next first
              (rw (shr-add idx w r) at rest))
    ]

-- The bits of one delta, and how many they are.
unfoldable pub delta_code : ℕ → ℕ → ℕ
delta_code div delta = shl (shr div delta) (1 + 2 * low div delta)

abbrev pub delta_size : ℕ → ℕ → ℕ
delta_size div delta = shr div delta + 1 + div

-- A string that ends at bit `n`.
pub record EndsAt (bits : Bytes) (n : ℕ) : Type 0 where
  pub bytes : IsBytes bits
  pub below : num bits < shl n 1
  pub size : length bits ≡ (n + 7) / 8

one_fits : (k : ℕ) → 0 < k → 1 < shl k 1
one_fits zero h = elim h [ ]
one_fits (suc k) h = omega (arith, shl_pos k)

-- The unary part: zeros, then a one.
module _ (q div res : ℕ) (bits : Bytes) (h : EndsAt bits res) where
  abbrev unary_end : ℕ
  unary_end = res + q

  abbrev sized : Bytes
  sized = bits ++ replicate ((res + (q + 1 + div) + 7) / 8 - length bits) 0

  length-sized : length sized ≡ (res + (q + 1 + div) + 7) / 8
  length-sized =
      let fill = (res + (q + 1 + div) + 7) / 8 - length bits in
      omega (arith, h.size, length-append bits (replicate fill 0), length-replicate {A = ℕ} fill 0)

  place : 8 * (unary_end / 8) + unary_end % 8 ≡ unary_end
  place = omega arith

  sized_below : num sized < shl unary_end 1
  sized_below =
      omega (
        arith,
        h.below,
        shl_mono res q,
        num-zeros bits ((res + (q + 1 + div) + 7) / 8 - length bits),
      )

  unary-Written : Written sized (or_byte sized (unary_end / 8) (2 ^ (unary_end % 8))) unary_end 1
  unary-Written = rw (pow-shl (unary_end % 8)) (
      subst (λ p. Written sized (or_byte sized (unary_end / 8) (shl (unary_end % 8) 1)) p 1) place
        (or_byte-Written sized (unary_end / 8) (unary_end % 8) 1
          (IsBytes-zeros bits ((res + (q + 1 + div) + 7) / 8 - length bits) h.bytes) (omega arith)
          (subst (λ p. num sized < shl p 1) (sym place) sized_below)
          (one_fits (8 - unary_end % 8) (omega arith)) (omega (arith, length-sized))))

-- A delta is written behind what is there.
pub write_delta-EndsAt :
    (div delta res : ℕ) (bits : Bytes)
    → EndsAt bits res
    → (num (write_delta div delta res bits) ≡ num bits + shl res (delta_code div delta))
      × EndsAt (write_delta div delta res bits) (res + delta_size div delta)
unfolding write_delta delta_code
write_delta-EndsAt div delta res bits h =
    let q = shr div delta in
    let unary = unary-Written q div res bits h in
    let bits1 = or_byte (sized q div res bits h) ((res + q) / 8) (2 ^ ((res + q) % 8)) in
    let l = low div delta in
    let end = res + q + 1 in
    let out = write_remainder div div l 0 (end % 8) (end / 8) bits1 in
    let p : 8 * (end / 8) + end % 8 ≡ end = omega arith in
    let one : 1 < shl 1 1 = omega arith in
    let bound1 : num bits1 < shl end 1 =
      omega (arith, unary.value, sum-below (res + q) 1 _ 1 (sized_below q div res bits h) one) in
    let all : div - 0 ≡ div = omega arith in
    let fits : l < shl (div - 0) 1 = rw all (low-below div delta) in
    let rest : Written bits1 out end l =
      subst (λ k. Written bits1 out k l) p
        (write_remainder-Written div div l 0 (end % 8) (end / 8) bits1 unary.bytes (omega arith)
          (subst (λ k. num bits1 < shl k 1) (sym p) bound1) fits (omega arith)
          (omega (arith, unary.size, length-sized q div res bits h))) in
    let code : shl res (delta_code div delta) ≡ shl (res + q) 1 + shl end l =
      sym (shl-add res q (1 + 2 * l))
      ∙ shl_sum (res + q) 1 (2 * l)
      ∙ ap (λ m. shl (res + q) 1 + m) (sym (shl-add (res + q) 1 l)) in
    let zeros = num-zeros bits ((res + (q + 1 + div) + 7) / 8 - length bits) in
    let bound2 = sum-below end div (num bits1) l bound1 (low-below div delta) in
    let total : end + div ≡ res + delta_size div delta = omega arith in
    rw (div-shr div delta, mod-low div delta)
      (
        omega (arith, rest.value, unary.value, zeros, code),
        record {
          bytes = rest.bytes;
          below = subst (λ k. num out < shl k 1) total (omega (arith, bound2, rest.value));
          size = omega (arith, rest.size, unary.size, length-sized q div res bits h);
        },
      )

pub empty-EndsAt : EndsAt [] 0
unfolding num
empty-EndsAt = record { bytes = λ i. omega arith; below = omega arith; size = refl }
