-- ===== src/Containers/Golomb/Read.antt =====
-- One delta as `golomb_intersect` of private_set_intersection/cpp/datastructure/golomb.cpp reads it.
use open_mined_psi.Base.{
  ℕ, zero, suc, ◌+◌, ◌-◌, ◌*◌, ◌/◌, ◌%◌, ◌^◌, min, bit_or, ◌≤◌, ◌<◌, ◌≡◌, refl, sym, ap, ◌∙◌, ◌&&◌,
  not, ◌==◌, Bool-cases, inl, inr, ltb, leb, Bytes, get_or, arith, if◌then◌else◌,
}
use open_mined_psi.Base.Shift.{
  shr, shl, low, low-add, low-below, low-low, shr-add, shr-shl, shl-add, shl_sum, sum-below,
  bit_or-shl, shl-bit_or, shr-sum, low-sum, mod-low, mul-shl, shl-zero,
}
use open_mined_psi.Containers.Golomb.{Cursor, read_remainder, read_delta, ctz}
use open_mined_psi.Containers.Golomb.Number.{num, IsBytes}
use open_mined_psi.Containers.Golomb.Skip.{rest_at, byte_window, ctz-low}

module _ (bits : Bytes) (h : IsBytes bits) where
  -- What the loop leaves: the bits of the remainder, and the byte behind them.
  pub record Remains (div idx : ℕ) (c c' : Cursor) : Type 0 where
    pub value :
        c'.total ≡ c.total + shl idx (low (div - idx) (rest_at bits h (8 * c.at + c.offset)))
    pub moved : idx < div → c'.at ≡ (8 * c.at + c.offset + (div - idx) + 7) / 8
    pub unmoved : div ≤ idx → c'.at ≡ c.at

  ended : (div idx : ℕ) (c : Cursor) → div ≤ idx → Remains div idx c c
  ended div idx c over =
      let none : div - idx ≡ 0 = omega arith in
      record {
        value = rw none (omega (arith, shl-zero idx));
        moved = λ q. absurd (omega arith);
        unmoved = λ q. refl;
      }

  -- The bits of one byte.
  chunk :
      (c : Cursor) (nb idx : ℕ)
      → c.offset < 8
      → nb ≤ 8 - c.offset
      → get_or bits c.at 0 / 2 ^ c.offset % 2 ^ nb * 2 ^ idx
        ≡ shl idx (low nb (rest_at bits h (8 * c.at + c.offset)))
  chunk c nb idx q fits =
      let n = rest_at bits h (8 * c.at + c.offset) in
      let parts : nb + (8 - c.offset - nb) ≡ 8 - c.offset = omega arith in
      mul-shl idx (get_or bits c.at 0 / 2 ^ c.offset % 2 ^ nb)
      ∙ ap (shl idx) (
          mod-low nb (get_or bits c.at 0 / 2 ^ c.offset)
          ∙ ap (low nb) (byte_window bits h c.at c.offset n q refl)
          ∙ ap (λ k. low nb (low k n)) (sym parts)
          ∙ low-low nb (8 - c.offset - nb) n)

  abbrev after : Cursor → ℕ → ℕ → Cursor
  after c idx nb = record {
    at = c.at + 1;
    offset = 0;
    total = c.total + shl idx (low nb (rest_at bits h (8 * c.at + c.offset)));
  }

  last_chunk :
      (div idx nb : ℕ) (c out : Cursor)
      → idx < div
      → nb ≡ div - idx
      → div - idx ≤ 8 - c.offset
      → Remains div (idx + nb) (after c idx nb) out
      → Remains div idx c out
  last_chunk div idx nb c out left exact fits r =
      let none : div - (idx + nb) ≡ 0 = omega arith in
      let value = rw none at r.value in
      record {
        value = rw (sym exact) (omega (arith, value, shl-zero (idx + nb)));
        moved = λ k. omega (arith, r.unmoved (omega arith));
        unmoved = λ k. absurd (omega arith);
      }

  more_chunks :
      (div idx nb : ℕ) (c out : Cursor)
      → c.offset < 8
      → nb ≡ 8 - c.offset
      → 8 - c.offset < div - idx
      → Remains div (idx + nb) (after c idx nb) out
      → Remains div idx c out
  more_chunks div idx nb c out q exact short r =
      let p = 8 * c.at + c.offset in
      let n = rest_at bits h p in
      let next : 8 * (c.at + 1) + 0 ≡ p + nb = omega arith in
      let fewer : div - (idx + nb) ≡ div - idx - nb = omega arith in
      let parts : nb + (div - idx - nb) ≡ div - idx = omega arith in
      let moved = ap (rest_at bits h) next ∙ shr-add p nb (num bits) in
      let value = rw (moved, fewer) at r.value in
      let split =
        ap (λ k. shl idx (low k n)) (sym parts)
        ∙ ap (shl idx) (low-add nb (div - idx - nb) n)
        ∙ shl_sum idx (low nb n) (shl nb (low (div - idx - nb) (shr nb n))) in
      let shift = shl-add idx nb (low (div - idx - nb) (shr nb n)) in
      record {
        value = omega (arith, value, split, shift);
        moved = λ k. omega (arith, r.moved (omega arith));
        unmoved = λ k. absurd (omega arith);
      }

  read_remainder-Remains :
      (fuel div idx : ℕ) (c : Cursor)
      → c.offset < 8
      → div ≤ idx + fuel
      → c.total < shl idx 1
      → Remains div idx c (read_remainder bits fuel div idx c)
  unfolding read_remainder
  read_remainder-Remains zero div idx c q enough small = ended div idx c (omega arith)
  read_remainder-Remains (suc fuel) div idx c q enough small = elim (Bool-cases (ltb idx div)) [
    | inr over ↦ rw (over, read_remainder) (ended div idx c (ground arith))
    | inl more ↦
        let n = rest_at bits h (8 * c.at + c.offset) in
        let nb = min (8 - c.offset) (div - idx) in
        let part = chunk c nb idx q (omega arith) in
        let joined = bit_or-shl idx c.total (low nb n) small in
        let c' : Cursor = record {
          at = c.at + 1;
          offset = 0;
          total = c.total + shl idx (low nb n);
        } in
        let r =
          read_remainder-Remains fuel div (idx + nb) c' (omega arith) (ground arith)
            (sum-below idx nb c.total (low nb n) small (low-below nb n)) in
        rw (more, part, joined, read_remainder)
          (elim (Bool-cases (leb (div - idx) (8 - c.offset))) [
            | inl last ↦ last_chunk div idx nb c _ (ground arith) (ground arith) (ground arith) r
            | inr part ↦ more_chunks div idx nb c _ q (ground arith) (ground arith) r
          ])
  ]

  -- The byte that the remainder begins in.
  abbrev start_of : ℕ → ℕ → ℕ
  start_of i one_idx = i + (if (one_idx + 1) % 8 == 0 then 1 else 0)

  start_place :
      (i one_idx : ℕ)
      → one_idx < 8
      → 8 * start_of i one_idx + (one_idx + 1) % 8 ≡ 8 * i + one_idx + 1
  start_place i one_idx q = elim (Bool-cases ((one_idx + 1) % 8 == 0)) [
    | inl last ↦ rw last (ground arith)
    | inr other ↦ rw other (ground arith)
  ]

  -- A byte passed too far is given back.
  end_place :
      (div i s j : ℕ)
      → (0 < div → j ≡ (8 * i + s + div + 7) / 8)
      → (div ≤ 0 → j ≡ i)
      → s < 8
      → 8 * (j - (if ltb 0 div && not ((s + div) % 8 == 0) then 1 else 0)) + (s + div) % 8
        ≡ 8 * i + s + div
  end_place div i s j moved unmoved q = elim (Bool-cases (ltb 0 div)) [
    | inr none ↦ let same = unmoved (ground arith) in rw none (ground (arith, same))
    | inl some_bits ↦
        let at_end = moved (ground arith) in
        let pos : 0 < div = ground arith in
        elim (Bool-cases ((s + div) % 8 == 0)) [
          | inl whole ↦ rw (some_bits, whole) (ground (arith, at_end))
          | inr part ↦ rw (some_bits, part) (ground (arith, at_end))
        ]
  ]

  -- The unary end at `zeros` bits, then the remainder `l`, then `s`.
  pub read_delta-reads :
      (div l s zeros : ℕ) (c : Cursor)
      → c.offset < 8
      → zeros < 8 - c.offset
      → l < shl div 1
      → rest_at bits h (8 * c.at + c.offset) ≡ shl zeros (1 + 2 * (l + shl div s))
      → ((read_delta bits div c).total ≡ shl div (c.total + zeros) + l)
        × ((read_delta bits div c).offset < 8)
        × (8 * (read_delta bits div c).at + (read_delta bits div c).offset
            ≡ 8 * c.at + c.offset + zeros + 1 + div)
        × (rest_at bits h (8 * c.at + c.offset + zeros + 1 + div) ≡ s)
  unfolding read_delta
  read_delta-reads div l s zeros c q near small e =
      let p = 8 * c.at + c.offset in
      let x = l + shl div s in
      let byte = byte_window bits h c.at c.offset (shl zeros (1 + 2 * x)) q e in
      let count : ctz 8 (get_or bits c.at 0 / 2 ^ c.offset) ≡ zeros =
        ap (ctz 8) byte ∙ ctz-low 8 (8 - c.offset) zeros x near (omega arith) in
      let one_idx = zeros + c.offset in
      let bs = (one_idx + 1) % 8 in
      let start = start_of c.at one_idx in
      let begin : 8 * start + bs ≡ p + (zeros + 1) =
        start_place c.at one_idx (omega arith) ∙ omega arith in
      let behind : rest_at bits h (p + (zeros + 1)) ≡ x =
        shr-add p (zeros + 1) (num bits)
        ∙ ap (shr (zeros + 1)) e
        ∙ shr-add zeros 1 (shl zeros (1 + 2 * x))
        ∙ ap (shr 1) (shr-shl zeros (1 + 2 * x))
        ∙ omega arith in
      let r =
        read_remainder-Remains div div 0 (record { at = start; offset = bs; total = 0 })
          (omega arith) (omega arith) (omega arith) in
      let all : div - 0 ≡ div = omega arith in
      let value = rw (begin, behind, all, low-sum div l s small) at r.value in
      let joined =
        ap (λ n. bit_or n l) (mul-shl div (c.total + zeros))
        ∙ shl-bit_or div (c.total + zeros) l small in
      let off : (one_idx + 1 + div) % 8 ≡ (bs + div) % 8 = omega arith in
      let place = end_place div start bs _ (rw all at r.moved) r.unmoved (omega arith) in
      let far : p + zeros + 1 + div ≡ p + (zeros + 1) + div = omega arith in
      rw count (
        ap (bit_or ((c.total + zeros) * 2 ^ div)) (value ∙ omega arith) ∙ joined,
        omega arith,
        rw off (place ∙ omega (arith, begin)),
        ap (rest_at bits h) far
            ∙ shr-add (p + (zeros + 1)) div (num bits)
            ∙ ap (shr div) behind
            ∙ shr-sum div l s small,
      )
