-- ===== src/Containers/Golomb/Skip.antt =====
-- The unary quotient as `golomb_intersect` of private_set_intersection/cpp/datastructure/golomb.cpp reads
-- it: empty bytes, then the zeros of a byte.
use open_mined_psi.Base.{
  ℕ, zero, suc, ◌+◌, ◌-◌, ◌*◌, ◌/◌, ◌%◌, ◌^◌, ◌≤◌, ◌<◌, ◌≡◌, refl, sym, ap, ◌∙◌, subst, true, false,
  ◌&&◌, ◌==◌, Bool-cases, inl, inr, ltb, Bytes, length, get_or, arith,
}
use open_mined_psi.Base.Shift.{
  shr, shl, low, low-shl, shr-add, shr-shl, shl-add, shl-zero, shl_mono, shr-zero, shr-of_below,
  div-shr, low-zero,
}
use open_mined_psi.Containers.Golomb.{Cursor, skip_empty, ctz}
use open_mined_psi.Containers.Golomb.Number.{num, IsBytes, num-below, byte-shr}

-- The zeros below the lowest one of a window of `w` bits.
pub ctz-low : (fuel w z x : ℕ) → z < w → w ≤ fuel → ctz fuel (low w (shl z (1 + 2 * x))) ≡ z
unfolding ctz
ctz-low zero w z x h k = absurd (omega arith)
ctz-low (suc fuel) zero z x h k = absurd (omega arith)
ctz-low (suc fuel) (suc w) zero x h k =
    let odd : (low (suc w) (1 + 2 * x) % 2 == 1) ≡ true = ground arith in rw (odd, ctz) refl
ctz-low (suc fuel) (suc w) (suc z) x h k =
    let s = shl z (1 + 2 * x) in
    let even : (low (suc w) (2 * s) % 2 == 1) ≡ false = ground arith in
    let same : 2 * s / 2 ≡ s = omega arith in
    let half : low (suc w) (2 * s) / 2 ≡ low w s = rw same (omega arith) in
    rw (even, half, ctz) (ap suc (ctz-low fuel w z x (omega arith) (omega arith)))

-- A window that ends before the lowest one is empty, and a longer one is not.
window_empty : (w z o : ℕ) → w ≤ z → low w (shl z o) ≡ 0
window_empty w z o h =
    let parts : w + (z - w) ≡ z = omega arith in
    let exact : w + 0 ≡ w = omega arith in
    ap (λ k. low w (shl k o)) (sym parts)
    ∙ ap (low w) (shl-add w (z - w) o)
    ∙ ap (λ k. low k (shl w (shl (z - w) o))) (sym exact)
    ∙ low-shl w 0 (shl (z - w) o)
    ∙ shl-zero w

shl-above : (k n : ℕ) → 0 < n → 0 < shl k n
shl-above zero n h = h
shl-above (suc k) n h = omega (arith, shl-above k n h)

window_full : (w z x : ℕ) → z < w → 0 < low w (shl z (1 + 2 * x))
window_full w z x h =
    let parts : z + suc (w - z - 1) ≡ w = omega arith in
    let one : 0 < low (suc (w - z - 1)) (1 + 2 * x) = omega arith in
    subst (λ k. 0 < low k (shl z (1 + 2 * x))) parts
      (rw (low-shl z (suc (w - z - 1)) (1 + 2 * x)) (shl-above z _ one))

module _ (bits : Bytes) (h : IsBytes bits) where
  abbrev pub rest_at : ℕ → ℕ
  rest_at p = shr p (num bits)

  -- A one still to come is inside the string.
  inside : (i s z x : ℕ) → rest_at (8 * i + s) ≡ shl z (1 + 2 * x) → i < length bits
  inside i s z x e = elim (Bool-cases (ltb i (length bits))) [
    | inl before ↦ ground arith
    | inr behind ↦
        let reach : 8 * length bits + (8 * i + s - 8 * length bits) ≡ 8 * i + s = ground arith in
        let below : num bits < shl (8 * i + s) 1 = omega (
          arith,
          num-below bits h,
          subst (λ k. shl (8 * length bits) 1 ≤ shl k 1) reach
              (shl_mono (8 * length bits) (8 * i + s - 8 * length bits)),
        ) in
        absurd (
          omega (
            arith,
            shr-of_below (8 * i + s) (num bits) below,
            shl-above z (1 + 2 * x) (omega arith),
          ))
  ]

  -- A byte from bit `s` on.
  pub byte_window :
      (i s n : ℕ) → s < 8 → rest_at (8 * i + s) ≡ n → get_or bits i 0 / 2 ^ s ≡ low (8 - s) n
  byte_window i s n q e =
      div-shr s (get_or bits i 0) ∙ byte-shr bits i s h (omega arith) ∙ ap (low (8 - s)) e

  -- Where the loop stops before a one: `z` zeros to read in all, `x` behind the one.
  pub record Stops (c : Cursor) (z x : ℕ) (c' : Cursor) : Type 0 where
    pub zeros : ℕ
    pub at_inside : c'.at < length bits
    pub offset_small : c'.offset < 8
    pub near : zeros < 8 - c'.offset
    pub moved : 8 * c'.at + c'.offset + zeros ≡ 8 * c.at + c.offset + z
    pub counted : c'.total + zeros ≡ c.total + z
    pub rest : rest_at (8 * c'.at + c'.offset) ≡ shl zeros (1 + 2 * x)

  pub skip_empty-Stops :
      (fuel : ℕ) (c : Cursor) (z x : ℕ)
      → c.offset < 8
      → length bits ≤ c.at + fuel
      → rest_at (8 * c.at + c.offset) ≡ shl z (1 + 2 * x)
      → Stops c z x (skip_empty bits fuel c)
  unfolding skip_empty
  skip_empty-Stops zero c z x q enough e = absurd (omega (arith, inside c.at c.offset z x e))
  skip_empty-Stops (suc fuel) c z x q enough e = elim (Bool-cases (ltb z (8 - c.offset))) [
    | inl near ↦
        let byte = byte_window c.at c.offset (shl z (1 + 2 * x)) q e in
        let full = window_full (8 - c.offset) z x (ground arith) in
        let test : (ltb c.at (length bits) && (get_or bits c.at 0 / 2 ^ c.offset == 0)) ≡ false =
          ground (arith, byte, full) in
        rw (test, skip_empty)
          (record {
            zeros = z;
            at_inside = inside c.at c.offset z x e;
            offset_small = q;
            near = ground arith;
            moved = refl;
            counted = refl;
            rest = e;
          })
    | inr far ↦
        let w : ℕ = 8 - c.offset in
        let within : w ≤ z = ground arith in
        let byte = byte_window c.at c.offset (shl z (1 + 2 * x)) q e in
        let none = window_empty w z (1 + 2 * x) within in
        let first = inside c.at c.offset z x e in
        let test : (ltb c.at (length bits) && (get_or bits c.at 0 / 2 ^ c.offset == 0)) ≡ true =
          ground (arith, byte, none, first) in
        let next : 8 * (c.at + 1) + 0 ≡ 8 * c.at + c.offset + w = omega arith in
        let parts : w + (z - w) ≡ z = omega arith in
        let e' : rest_at (8 * (c.at + 1) + 0) ≡ shl (z - w) (1 + 2 * x) =
          ap rest_at next
          ∙ shr-add (8 * c.at + c.offset) w (num bits)
          ∙ ap (shr w) (e ∙ ap (λ k. shl k (1 + 2 * x)) (sym parts) ∙ shl-add w (z - w) (1 + 2 * x))
          ∙ shr-shl w (shl (z - w) (1 + 2 * x)) in
        let r =
          skip_empty-Stops fuel (record { at = c.at + 1; offset = 0; total = c.total + w }) (z - w)
            x (omega arith) (omega arith) e' in
        rw (test, skip_empty)
          (record {
            zeros = r.zeros;
            at_inside = r.at_inside;
            offset_small = r.offset_small;
            near = r.near;
            moved = omega (arith, r.moved);
            counted = omega (arith, r.counted);
            rest = r.rest;
          })
  ]

  -- With no one to come the loop runs to the end of the string.
  pub skip_empty_end :
      (fuel : ℕ) (c : Cursor)
      → c.offset < 8
      → c.at ≤ length bits
      → length bits ≤ c.at + fuel
      → rest_at (8 * c.at + c.offset) ≡ 0
      → (skip_empty bits fuel c).at ≡ length bits
  unfolding skip_empty
  skip_empty_end zero c q within enough e = omega arith
  skip_empty_end (suc fuel) c q within enough e = elim (Bool-cases (ltb c.at (length bits))) [
    | inr ended ↦ rw (ended, skip_empty) (ground arith)
    | inl before ↦
        let byte = byte_window c.at c.offset 0 q e in
        let none : low (8 - c.offset) 0 ≡ 0 = low-zero (8 - c.offset) in
        let test : (ltb c.at (length bits) && (get_or bits c.at 0 / 2 ^ c.offset == 0)) ≡ true =
          ground (arith, byte, none) in
        let next : 8 * (c.at + 1) + 0 ≡ 8 * c.at + c.offset + (8 - c.offset) = omega arith in
        let e' : rest_at (8 * (c.at + 1) + 0) ≡ 0 =
          ap rest_at next
          ∙ shr-add (8 * c.at + c.offset) (8 - c.offset) (num bits)
          ∙ ap (shr (8 - c.offset)) e
          ∙ shr-zero (8 - c.offset) in
        rw (test, skip_empty)
          (skip_empty_end fuel
            (record { at = c.at + 1; offset = 0; total = c.total + (8 - c.offset) }) (omega arith)
            (ground arith) (omega arith) e')
  ]
