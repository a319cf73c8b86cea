-- ===== src/Containers/Golomb/Meet.antt =====
-- `golomb_intersect` of private_set_intersection/cpp/datastructure/golomb.cpp on the code of a list of
-- values: the merge with the values themselves.
use open_mined_psi.Base.{
  ℕ, zero, suc, ◌+◌, ◌*◌, ◌≤◌, ◌<◌, ◌≡◌, refl, ap, ◌∙◌, true, false, ◌==◌, Bytes, List, [], ◌∷◌,
  ◌++◌, Option, none, some, length, arith,
}
use open_mined_psi.Base.Shift.{shr, shl, low, low-below, low-add-shl, shl-add, shl_sum}
use open_mined_psi.Containers.Golomb.{
  Cursor, skip_empty, read_delta, drop_below, take_equal, intersect_loop, golomb_intersect,
}
use open_mined_psi.Containers.Golomb.Number.{IsBytes}
use open_mined_psi.Containers.Golomb.Write.{delta_code, delta_size}
use open_mined_psi.Containers.Golomb.Code.{code, code_size, IsCode}
use open_mined_psi.Containers.Golomb.Skip.{rest_at, skip_empty-Stops, skip_empty_end}
use open_mined_psi.Containers.Golomb.Read.{read_delta-reads}

-- The indexes in a sorted array that the values behind `sum` meet, and the merge that finds them.
unfoldable pub merge_hits : ℕ → List ℕ → List (ℕ × ℕ) → List ℕ
merge_hits sum [] arr = []
merge_hits sum (d ∷ ds) arr =
    let (taken, left) = take_equal (sum + d) (drop_below (sum + d) arr) in
    elim left [ [] ↦ taken | a ∷ rest ↦ taken ++ merge_hits (sum + d) ds (a ∷ rest) ]

code_shape :
    (div d s : ℕ)
    → delta_code div d + shl (delta_size div d) s
      ≡ shl (shr div d) (1 + 2 * (low div d + shl div s))
unfolding delta_code
code_shape div d s =
    let q = shr div d in
    let size : delta_size div d ≡ q + (1 + div) = omega arith in
    let moved = ap (λ k. shl k s) size ∙ shl-add q (1 + div) s ∙ ap (shl q) (shl-add 1 div s) in
    let sum = shl_sum q (1 + 2 * low div d) (2 * shl div s) in
    let parts : 1 + 2 * low div d + 2 * shl div s ≡ 1 + 2 * (low div d + shl div s) = omega arith in
    omega (arith, moved, sum, ap (shl q) parts)

length-le-code_size : (div : ℕ) (ds : List ℕ) → length ds ≤ code_size div ds
unfolding code_size
length-le-code_size div [] = omega arith
length-le-code_size div (d ∷ ds) = omega (arith, length-le-code_size div ds)

module _ (bits : Bytes) (div : ℕ) (h : IsBytes bits) where
  -- The round from the value on.
  abbrev resume : ℕ → ℕ → ℕ → ℕ → List (ℕ × ℕ) → Option (List ℕ)
  resume fuel i s value arr =
      let (taken, left) = take_equal value (drop_below value arr) in
      elim left [
        | [] ↦ some taken
        | a ∷ rest ↦ elim (intersect_loop bits div fuel i s value (a ∷ rest)) [
          | none ↦ none
          | some more ↦ some (taken ++ more)
        ]
      ]

  resume-merge_hits :
      (fuel i s value : ℕ) (ds : List ℕ) (arr : List (ℕ × ℕ))
      → ((arr' : List (ℕ × ℕ))
          → intersect_loop bits div fuel i s value arr' ≡ some (merge_hits value ds arr'))
      → resume fuel i s value arr
        ≡ some (elim (take_equal value (drop_below value arr)).1 [
          | [] ↦ (take_equal value (drop_below value arr)).0
          | a ∷ rest ↦ (take_equal value (drop_below value arr)).0 ++ merge_hits value ds (a ∷ rest)
        ])
  resume-merge_hits fuel i s value ds arr ih = by_left (take_equal value (drop_below value arr)).1
    where
      by_left :
          (left : List (ℕ × ℕ))
          → Path
              (Option (List ℕ))
              (elim left [
                | [] ↦ some (take_equal value (drop_below value arr)).0
                | a ∷ rest ↦ elim (intersect_loop bits div fuel i s value (a ∷ rest)) [
                  | none ↦ none
                  | some more ↦ some ((take_equal value (drop_below value arr)).0 ++ more)
                ]
              ])
              (some (elim left [
                | [] ↦ (take_equal value (drop_below value arr)).0
                | a ∷ rest ↦
                    (take_equal value (drop_below value arr)).0 ++ merge_hits value ds (a ∷ rest)
              ]))
      by_left [] = refl
      by_left (a ∷ rest) = rw (ih (a ∷ rest)) refl

  intersect_loop-merge_hits :
      (fuel i s sum : ℕ) (ds : List ℕ) (arr : List (ℕ × ℕ))
      → s < 8
      → length ds < fuel
      → 8 * i + s + code_size div ds ≤ 8 * length bits
      → rest_at bits h (8 * i + s) ≡ code div ds
      → intersect_loop bits div fuel i s sum arr ≡ some (merge_hits sum ds arr)
  unfolding intersect_loop code code_size merge_hits
  intersect_loop-merge_hits zero i s sum ds arr q enough room e = absurd (omega arith)
  intersect_loop-merge_hits (suc fuel) i s sum [] arr q enough room e =
      let c : Cursor = record { at = i; offset = s; total = 0 } in
      let end = skip_empty_end bits h (length bits) c q (omega arith) (omega arith) e in
      let test : ((skip_empty bits (length bits) c).at == length bits) ≡ true =
        ground (arith, end) in
      rw (test, intersect_loop) refl
  intersect_loop-merge_hits (suc fuel) i s sum (d ∷ ds) arr q enough room e =
      let c : Cursor = record { at = i; offset = s; total = 0 } in
      let rest = code div ds in
      let st =
        skip_empty-Stops bits h (length bits) c (shr div d) (low div d + shl div rest) q
          (omega arith) (e ∙ code_shape div d rest) in
      let c' = skip_empty bits (length bits) c in
      let test : (c'.at == length bits) ≡ false = ground (arith, st.at_inside) in
      let (value, offset, place, left) =
        read_delta-reads bits h div (low div d) rest st.zeros c' st.offset_small st.near
          (low-below div d) st.rest in
      let zeros : c'.total + st.zeros ≡ shr div d = omega (arith, st.counted) in
      let delta : (read_delta bits div c').total ≡ d =
        value ∙ ap (λ n. shl div n + low div d) zeros ∙ omega (arith, low-add-shl div d) in
      let start : 8 * (read_delta bits div c').at + (read_delta bits div c').offset
          ≡ 8 * i + s + delta_size div d =
        place ∙ omega (arith, st.moved) in
      let e' = ap (rest_at bits h) place ∙ left in
      rw (test, intersect_loop)
        (ap
            (λ t.
              resume fuel (read_delta bits div c').at (read_delta bits div c').offset (sum + t) arr)
            delta
          ∙ resume-merge_hits fuel (read_delta bits div c').at (read_delta bits div c').offset
              (sum + d) ds arr
              (λ arr'.
                intersect_loop-merge_hits fuel (read_delta bits div c').at
                  (read_delta bits div c').offset (sum + d) ds arr' offset (omega arith)
                  (omega (arith, start)) e'))

-- On the code of differences the intersection ends and is the merge with their sums.
pub golomb_intersect-merge_hits :
    (bits : Bytes) (div : ℕ) (ds : List ℕ) (arr : List (ℕ × ℕ))
    → IsCode div bits ds
    → golomb_intersect bits div arr ≡ some (merge_hits 0 ds arr)
unfolding golomb_intersect
golomb_intersect-merge_hits [] div [] arr h = unfold merge_hits in refl
golomb_intersect-merge_hits [] div (d ∷ ds) arr h =
    absurd (unfold code_size in omega (arith, h.ends.size))
golomb_intersect-merge_hits (b ∷ bits) div ds arr h =
    intersect_loop-merge_hits (b ∷ bits) div h.ends.bytes (8 * length (b ∷ bits) + 1) 0 0 0 ds arr
      (omega arith) (omega (arith, length-le-code_size div ds, h.ends.size))
      (omega (arith, h.ends.size)) h.value
