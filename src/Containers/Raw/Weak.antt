-- ===== src/Containers/Raw/Weak.antt =====
-- The order in which `std::sort` leaves the pairs of `Raw::Intersect`,
-- private_set_intersection/cpp/datastructure/raw.cpp, by element alone.
use mathlib.Core.List.{Memᴰ}
use mathlib.Core.List.Memᴰ.{head, tail}
use open_mined_psi.Base.{◌≡◌, true, false, List, [], ◌∷◌, arith, Bool-cases, inl, inr}
use open_mined_psi.Base.Order.{str_ltb}
use open_mined_psi.Base.Sort.{insert, sort, mem_of_insert}
use open_mined_psi.Containers.Raw.{Indexed, pair_ltb}
use open_mined_psi.Containers.Raw.Merge.{str_ltb_asym}
use open_mined_psi.Containers.Raw.Found.{not_str_ltb_trans}

-- Ascending by element.
abbrev pub IsWeak : List Indexed → Type 0
IsWeak [] = Unit
IsWeak (p ∷ ps) = ((q : Indexed) → Memᴰ q ps → str_ltb q.0 p.0 ≡ false) × IsWeak ps

insert-IsWeak : (a : Indexed) (ps : List Indexed) → IsWeak ps → IsWeak (insert pair_ltb a ps)
unfolding insert
insert-IsWeak a [] h = (λ q m. elim m [ ], tt)
insert-IsWeak a (p ∷ ps) h = elim (Bool-cases (pair_ltb p a)) [
  | inl less ↦
      rw (less, insert)
        (
          (λ q m. elim (mem_of_insert pair_ltb a q ps m) [
            | head same ↦ rw same (not_behind p a less)
            | tail m' ↦ h.0 q m'
          ]),
          insert-IsWeak a ps h.1,
        )
  | inr more ↦
      let first : str_ltb p.0 a.0 ≡ false = ground (arith, more) in
      rw (more, insert)
        (
          (λ q m. elim m [
            | head same ↦ rw same first
            | tail m' ↦ not_str_ltb_trans a.0 p.0 q.0 first (h.0 q m')
          ]),
          h,
        )
]
  where
    not_behind : (p a : Indexed) → pair_ltb p a ≡ true → str_ltb a.0 p.0 ≡ false
    not_behind p a less = elim (Bool-cases (str_ltb p.0 a.0)) [
      | inl before ↦ str_ltb_asym p.0 a.0 before
      | inr not_before ↦ elim (Bool-cases (str_ltb a.0 p.0)) [
        | inl after ↦ let q : false ≡ true = rw (not_before, after) at less in cc
        | inr same ↦ same
      ]
    ]

pub sort-IsWeak : (ps : List Indexed) → IsWeak (sort pair_ltb ps)
unfolding sort
sort-IsWeak [] = tt
sort-IsWeak (p ∷ ps) = insert-IsWeak p (sort pair_ltb ps) (sort-IsWeak ps)
