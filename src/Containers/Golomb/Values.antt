-- ===== src/Containers/Golomb/Values.antt =====
-- `golomb_intersect` of what `golomb_compress` made, private_set_intersection/cpp/datastructure/golomb.cpp:
-- the indexes of the values that both have.
use mathlib.Core.List.{Memᴰ}
use mathlib.Core.List.Memᴰ.{head, tail}
use open_mined_psi.Base.{
  ℕ, ◌<◌, ◌+◌, ◌-◌, ◌≤◌, ◌≡◌, ◌≢◌, ◌⊎◌, ◌↔◌, refl, ◌∙◌, subst, true, false, ltb, ◌==◌, Bool-cases,
  inl, inr, List, [], ◌∷◌, ◌++◌, Option, some, arith,
}
use open_mined_psi.Base.Sort.{IsAscending}
use open_mined_psi.Containers.Golomb.{
  drop_below, take_equal, GolombCompressed, div_of, compress_with, golomb_compress,
  golomb_intersect,
}
use open_mined_psi.Containers.Golomb.Code.{deltas, compress_with-IsCode}
use open_mined_psi.Containers.Golomb.Meet.{merge_hits, golomb_intersect-merge_hits}
use open_mined_psi.Containers.Golomb.Merge.{
  Entry, IsRising, sums, mem_of_append, mem-append_left, mem-append_right, drop_below-IsRising,
  mem_of_drop_below, mem-drop_below, drop_below_bound, take_equal-IsRising, mem_of_taken,
  mem_of_left, mem-taken, mem-left,
}

-- Nothing is found that is not in both.
mem_of_merge_hits :
    (ds : List ℕ) (sum : ℕ) (arr : List Entry) (i : ℕ)
    → Memᴰ i (merge_hits sum ds arr)
    → (v : ℕ) × Memᴰ (v, i) arr × Memᴰ v (sums sum ds)
unfolding merge_hits sums
mem_of_merge_hits [] sum arr i m = elim m [ ]
mem_of_merge_hits (d ∷ ds) sum arr i m =
    let v = sum + d in
    let below = drop_below v arr in
    by_left (take_equal v below).1 (λ b n. mem_of_drop_below v arr b (mem_of_left v below b n)) m
      (λ arr' n. mem_of_merge_hits ds v arr' i n)
  where
    by_left :
        (left : List Entry)
        → ((b : Entry) → Memᴰ b left → Memᴰ b arr)
        → Memᴰ i (elim left [
          | [] ↦ (take_equal (sum + d) (drop_below (sum + d) arr)).0
          | a ∷ rest ↦
              (take_equal (sum + d) (drop_below (sum + d) arr)).0
              ++ merge_hits (sum + d) ds (a ∷ rest)
        ])
        → ((arr' : List Entry)
            → Memᴰ i (merge_hits (sum + d) ds arr')
            → (v : ℕ) × Memᴰ (v, i) arr' × Memᴰ v (sums (sum + d) ds))
        → (v : ℕ) × Memᴰ (v, i) arr × Memᴰ v (sums sum (d ∷ ds))
    by_left [] back n ih = (
      sum + d,
      mem_of_drop_below (sum + d) arr (sum + d, i)
          (mem_of_taken (sum + d) (drop_below (sum + d) arr) i n),
      head refl,
    )
    by_left (a ∷ rest) back n ih = elim (mem_of_append _ _ i n) [
      | inl here ↦ (
        sum + d,
        mem_of_drop_below (sum + d) arr (sum + d, i)
            (mem_of_taken (sum + d) (drop_below (sum + d) arr) i here),
        head refl,
      )
      | inr there ↦ let (w, m', s) = ih (a ∷ rest) there in (w, back (w, i) m', tail s)
    ]

sums_bound : (ds : List ℕ) (sum w : ℕ) → Memᴰ w (sums sum ds) → sum ≤ w
unfolding sums
sums_bound [] sum w m = elim m [ ]
sums_bound (d ∷ ds) sum w (head e) = omega (arith, e)
sums_bound (d ∷ ds) sum w (tail m) = omega (arith, sums_bound ds (sum + d) w m)

-- Everything in both is found.
mem-merge_hits :
    (ds : List ℕ) (sum : ℕ) (arr : List Entry) (v i : ℕ)
    → IsRising arr
    → Memᴰ (v, i) arr
    → Memᴰ v (sums sum ds)
    → Memᴰ i (merge_hits sum ds arr)
unfolding merge_hits sums
mem-merge_hits [] sum arr v i h m s = elim s [ ]
mem-merge_hits (d ∷ ds) sum arr v i h m s =
    let w = sum + d in
    let below = drop_below w arr in
    let rising = drop_below-IsRising w arr h in
    let le : w ≤ v = elim s [ head e ↦ omega (arith, e) | tail s' ↦ sums_bound ds w v s' ] in
    let kept = mem-drop_below w arr (v, i) le m in
    elim (Bool-cases (v == w)) [
      | inl same ↦
          let e : v ≡ w = ground arith in
          found w ds (take_equal w below).0 i (take_equal w below).1 (
            mem-taken w below i rising (λ b n. drop_below_bound w arr b h n)
              (subst (λ x. Memᴰ (x, i) below) e kept))
      | inr other ↦
          let apart : v ≢ w = ground arith in
          left_found w ds (take_equal w below).0 v i (take_equal w below).1
            (take_equal-IsRising w below rising) (mem-left w below (v, i) apart kept)
            (elim s [ head e ↦ absurd (apart e) | tail s' ↦ s' ])
            (λ arr' h' m' s'. mem-merge_hits ds w arr' v i h' m' s')
    ]
  where
    found :
        (w : ℕ) (ds taken : List ℕ) (i : ℕ) (left : List Entry)
        → Memᴰ i taken
        → Memᴰ i (elim left [ [] ↦ taken | a ∷ rest ↦ taken ++ merge_hits w ds (a ∷ rest) ])
    found w ds taken i [] m = m
    found w ds taken i (a ∷ rest) m = mem-append_left taken (merge_hits w ds (a ∷ rest)) i m

    left_found :
        (w : ℕ) (ds taken : List ℕ) (v i : ℕ) (left : List Entry)
        → IsRising left
        → Memᴰ (v, i) left
        → Memᴰ v (sums w ds)
        → ((arr' : List Entry)
            → IsRising arr'
            → Memᴰ (v, i) arr'
            → Memᴰ v (sums w ds)
            → Memᴰ i (merge_hits w ds arr'))
        → Memᴰ i (elim left [ [] ↦ taken | a ∷ rest ↦ taken ++ merge_hits w ds (a ∷ rest) ])
    left_found w ds taken v i [] h m s ih = elim m [ ]
    left_found w ds taken v i (a ∷ rest) h m s ih =
        mem-append_right taken (merge_hits w ds (a ∷ rest)) i (ih (a ∷ rest) h m s)

-- The sums of the differences of ascending values are the values.
mem-sums_rest :
    (vals : List ℕ) (prev v : ℕ)
    → ((x : ℕ) → Memᴰ x vals → prev ≤ x)
    → IsAscending ltb vals
    → Memᴰ v vals
    → (v ≡ prev) ⊎ Memᴰ v (sums prev (deltas prev false vals))
unfolding deltas sums
mem-sums_rest [] prev v low h m = elim m [ ]
mem-sums_rest (c ∷ cs) prev v low h m = elim (Bool-cases (ltb prev c)) [
  | inl rises ↦
      let whole : prev + (c - prev) ≡ c = ground arith in
      rw (rises, deltas, whole)
        (elim m [
          | head e ↦ inr (head e)
          | tail m' ↦ elim (mem-sums_rest cs c v (above c cs h.0) h.1 m') [
            | inl same ↦ inr (head same)
            | inr later ↦ inr (tail later)
          ]
        ])
  | inr level ↦
      let same : c ≡ prev = ground (arith, low c (head refl)) in
      rw (level, deltas)
        (elim m [
          | head e ↦ inl (e ∙ same)
          | tail m' ↦ mem-sums_rest cs prev v (λ x n. low x (tail n)) h.1 m'
        ])
]
  where
    above :
        (c : ℕ) (cs : List ℕ)
        → ((y : ℕ) → Memᴰ y cs → ltb y c ≡ false)
        → (x : ℕ) → Memᴰ x cs
        → c ≤ x
    above c cs h x m = let q = h x m in ground (arith, q)

mem_of_sums_rest :
    (vals : List ℕ) (prev v : ℕ) → Memᴰ v (sums prev (deltas prev false vals)) → Memᴰ v vals
unfolding deltas sums
mem_of_sums_rest [] prev v m = elim m [ ]
mem_of_sums_rest (c ∷ cs) prev v m = elim (Bool-cases (ltb prev c)) [
  | inl rises ↦
      let whole : prev + (c - prev) ≡ c = ground arith in
      elim (rw (rises, deltas, whole) at m) [
        | head e ↦ head e
        | tail m' ↦ tail (mem_of_sums_rest cs c v m')
      ]
  | inr level ↦ tail (mem_of_sums_rest cs prev v (rw (level, deltas) at m))
]

sums-deltas :
    (vals : List ℕ) (v : ℕ)
    → IsAscending ltb vals
    → Memᴰ v (sums 0 (deltas 0 true vals)) ↔ Memᴰ v vals
unfolding deltas sums
sums-deltas [] v h = (λ m. m, λ m. m)
sums-deltas (c ∷ cs) v h =
    let whole : 0 + (c - 0) ≡ c = omega arith in
    rw whole (
      λ m. elim m [ head e ↦ head e | tail m' ↦ tail (mem_of_sums_rest cs c v m') ],
      λ m. elim m [
        | head e ↦ head e
        | tail m' ↦
            elim (mem-sums_rest cs c v (λ x n. let q = h.0 x n in ground (arith, q)) h.1 m') [
              | inl same ↦ head same
              | inr later ↦ tail later
            ]
      ],
    )

pub golomb_compress-compress_with :
    (estimate : ℕ → ℕ → Option ℕ) (vals : List ℕ) (div_param : Option ℕ) (div : ℕ)
    → div_of estimate vals div_param ≡ some div
    → div < 64
    → golomb_compress estimate vals div_param ≡ some (compress_with div vals)
unfolding golomb_compress
golomb_compress-compress_with estimate vals div_param div e h =
    let fits : ltb div 64 ≡ true = ground arith in rw (e, golomb_compress) (rw fits refl)

-- For values in ascending order, a `div` that is defined and below 64 and an array of indexed values in
-- ascending order, the values are compressed, the intersection of the compressed values with the array
-- ends within its fuel, and it holds exactly the indexes whose value is one of those compressed.
pub golomb_intersect-golomb_compress :
    (estimate : ℕ → ℕ → Option ℕ) (vals : List ℕ) (div_param : Option ℕ) (div : ℕ)
    (arr : List Entry)
    → div_of estimate vals div_param ≡ some div
    → div < 64
    → IsAscending ltb vals
    → IsRising arr
    → (c : GolombCompressed) × (golomb_compress estimate vals div_param ≡ some c)
      × (found : List ℕ) × (golomb_intersect c.compressed c.div arr ≡ some found)
      × ((i : ℕ) → Memᴰ i found ↔ ((v : ℕ) × Memᴰ (v, i) arr × Memᴰ v vals))
unfolding compress_with
golomb_intersect-golomb_compress estimate vals div_param div arr e small h rising =
    let ds = deltas 0 true vals in
    let c = compress_with div vals in
    (
      c,
      golomb_compress-compress_with estimate vals div_param div e small,
      merge_hits 0 ds arr,
      golomb_intersect-merge_hits c.compressed c.div ds arr (compress_with-IsCode div vals),
      λ i. (
        λ m.
            let (v, here, s) = mem_of_merge_hits ds 0 arr i m in
            (v, here, (sums-deltas vals v h).0 s),
        λ (v, here, n). mem-merge_hits ds 0 arr v i rising here ((sums-deltas vals v h).1 n),
      ),
    )
