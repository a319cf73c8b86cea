-- ===== src/Containers/Golomb/Merge.antt =====
-- The merge of `golomb_intersect` of private_set_intersection/cpp/datastructure/golomb.cpp with a sorted
-- array: which indexes it finds.
use mathlib.Core.List.{Memᴰ}
use mathlib.Core.List.Memᴰ.{head, tail}
use open_mined_psi.Base.{
  ℕ, ◌+◌, ◌≤◌, ◌≡◌, ◌≢◌, ◌⊎◌, refl, sym, ap, ◌∙◌, ltb, ◌==◌, Bool-cases, inl, inr, List, [], ◌∷◌,
  ◌++◌, arith,
}
use open_mined_psi.Containers.Golomb.{drop_below, take_equal}

-- A value and an index.
abbrev pub Entry : Type 0
Entry = ℕ × ℕ

-- Ascending by value.
abbrev pub IsRising : List Entry → Type 0
IsRising [] = Unit
IsRising (a ∷ rest) = ((b : Entry) → Memᴰ b rest → a.0 ≤ b.0) × IsRising rest

-- The sums of differences, behind `sum`.
unfoldable pub sums : ℕ → List ℕ → List ℕ
sums sum [] = []
sums sum (d ∷ ds) = (sum + d) ∷ sums (sum + d) ds

pub mem_of_append : (xs ys : List ℕ) (i : ℕ) → Memᴰ i (xs ++ ys) → Memᴰ i xs ⊎ Memᴰ i ys
mem_of_append [] ys i m = inr m
mem_of_append (x ∷ xs) ys i (head e) = inl (head e)
mem_of_append (x ∷ xs) ys i (tail m) = elim (mem_of_append xs ys i m) [
  | inl here ↦ inl (tail here)
  | inr there ↦ inr there
]

pub mem-append_left : (xs ys : List ℕ) (i : ℕ) → Memᴰ i xs → Memᴰ i (xs ++ ys)
mem-append_left (x ∷ xs) ys i (head e) = head e
mem-append_left (x ∷ xs) ys i (tail m) = tail (mem-append_left xs ys i m)
mem-append_left [] ys i m = elim m [ ]

pub mem-append_right : (xs ys : List ℕ) (i : ℕ) → Memᴰ i ys → Memᴰ i (xs ++ ys)
mem-append_right [] ys i m = m
mem-append_right (x ∷ xs) ys i m = tail (mem-append_right xs ys i m)

-- What passing the smaller values leaves.
pub drop_below-IsRising : (v : ℕ) (arr : List Entry) → IsRising arr → IsRising (drop_below v arr)
unfolding drop_below
drop_below-IsRising v [] h = tt
drop_below-IsRising v (a ∷ rest) h = elim (Bool-cases (ltb a.0 v)) [
  | inl less ↦ rw (less, drop_below) (drop_below-IsRising v rest h.1)
  | inr more ↦ rw (more, drop_below) h
]

pub mem_of_drop_below :
    (v : ℕ) (arr : List Entry) (b : Entry) → Memᴰ b (drop_below v arr) → Memᴰ b arr
unfolding drop_below
mem_of_drop_below v [] b m = m
mem_of_drop_below v (a ∷ rest) b m = elim (Bool-cases (ltb a.0 v)) [
  | inl less ↦ tail (mem_of_drop_below v rest b (rw (less, drop_below) at m))
  | inr more ↦ rw (more, drop_below) at m
]

pub mem-drop_below :
    (v : ℕ) (arr : List Entry) (b : Entry) → v ≤ b.0 → Memᴰ b arr → Memᴰ b (drop_below v arr)
unfolding drop_below
mem-drop_below v (a ∷ rest) b le m = elim (Bool-cases (ltb a.0 v)) [
  | inr more ↦ rw (more, drop_below) m
  | inl less ↦
      rw (less, drop_below)
        (elim m [
          | head e ↦
              let same : b.0 ≡ a.0 = ap (λ (x : Entry). x.0) e in absurd (ground (arith, same))
          | tail m' ↦ mem-drop_below v rest b le m'
        ])
]
mem-drop_below v [] b le m = elim m [ ]

pub drop_below_bound :
    (v : ℕ) (arr : List Entry) (b : Entry) → IsRising arr → Memᴰ b (drop_below v arr) → v ≤ b.0
unfolding drop_below
drop_below_bound v [] b h m = elim m [ ]
drop_below_bound v (a ∷ rest) b h m = elim (Bool-cases (ltb a.0 v)) [
  | inl less ↦ drop_below_bound v rest b h.1 (rw (less, drop_below) at m)
  | inr more ↦ elim (rw (more, drop_below) at m) [
    | head e ↦ let same : b.0 ≡ a.0 = ap (λ (x : Entry). x.0) e in ground (arith, same)
    | tail m' ↦ let le = h.0 b m' in ground (arith, le)
  ]
]

-- The entries that are equal to `v`, and those behind them.
module _ (v : ℕ) where
  pub take_equal-IsRising : (arr : List Entry) → IsRising arr → IsRising (take_equal v arr).1
  unfolding take_equal
  take_equal-IsRising [] h = tt
  take_equal-IsRising (a ∷ rest) h = elim (Bool-cases (a.0 == v)) [
    | inl same ↦ rw (same, take_equal) (take_equal-IsRising rest h.1)
    | inr other ↦ rw (other, take_equal) h
  ]

  pub mem_of_taken : (arr : List Entry) (i : ℕ) → Memᴰ i (take_equal v arr).0 → Memᴰ (v, i) arr
  unfolding take_equal
  mem_of_taken [] i m = elim m [ ]
  mem_of_taken (a ∷ rest) i m = elim (Bool-cases (a.0 == v)) [
    | inl same ↦ elim (rw (same, take_equal) at m) [
      | head e ↦ let first : a.0 ≡ v = ground arith in head (rw (e, sym first))
      | tail m' ↦ tail (mem_of_taken rest i m')
    ]
    | inr other ↦ elim (rw (other, take_equal) at m) [ ]
  ]

  pub mem_of_left : (arr : List Entry) (b : Entry) → Memᴰ b (take_equal v arr).1 → Memᴰ b arr
  unfolding take_equal
  mem_of_left [] b m = m
  mem_of_left (a ∷ rest) b m = elim (Bool-cases (a.0 == v)) [
    | inl same ↦ tail (mem_of_left rest b (rw (same, take_equal) at m))
    | inr other ↦ rw (other, take_equal) at m
  ]

  pub mem-taken :
      (arr : List Entry) (i : ℕ)
      → IsRising arr
      → ((b : Entry) → Memᴰ b arr → v ≤ b.0)
      → Memᴰ (v, i) arr
      → Memᴰ i (take_equal v arr).0
  unfolding take_equal
  mem-taken [] i h least m = elim m [ ]
  mem-taken (a ∷ rest) i h least m = elim (Bool-cases (a.0 == v)) [
    | inl same ↦
        rw (same, take_equal)
          (elim m [
            | head e ↦ head (ap (λ (x : Entry). x.1) e)
            | tail m' ↦ tail (mem-taken rest i h.1 (λ b n. least b (tail n)) m')
          ])
    | inr other ↦
        let le = least a (head refl) in
        absurd (elim m [
          | head e ↦ let q : v ≡ a.0 = ap (λ (x : Entry). x.0) e in ground (arith, q)
          | tail m' ↦ let back = h.0 (v, i) m' in ground (arith, back, le)
        ])
  ]

  pub mem-left : (arr : List Entry) (b : Entry) → b.0 ≢ v → Memᴰ b arr → Memᴰ b (take_equal v arr).1
  unfolding take_equal
  mem-left [] b apart m = m
  mem-left (a ∷ rest) b apart m = elim (Bool-cases (a.0 == v)) [
    | inl same ↦
        rw (same, take_equal)
          (elim m [
            | head e ↦
                let q : b.0 ≡ a.0 = ap (λ (x : Entry). x.0) e in absurd (apart (q ∙ ground arith))
            | tail m' ↦ mem-left rest b apart m'
          ])
    | inr other ↦ rw (other, take_equal) m
  ]
