-- ===== src/Containers/Raw.antt =====
-- `Raw` of private_set_intersection/cpp/datastructure/raw.cpp. `std::sort` of pairs gives one answer
-- only, as no two pairs are equal. The order that `std::sort` gives equal elements by index is not
-- fixed, so the sorting permutation of `Create` is a parameter.
pub mod Merge
pub mod Found
pub mod Cycle
pub mod Sorted
pub mod Weak
use open_mined_psi.Base.{
  ℕ, zero, suc, ◌+◌, ◌==◌, ltb, Bool, true, false, not, Bytes, List, [], ◌∷◌, Option, none, some,
  length, get_or, set, replicate, if◌then◌else◌,
}
use open_mined_psi.Base.Order.{str_ltb, str_eqb}
use open_mined_psi.Base.Sort.{sort}

-- An element of the client and its index.
abbrev pub Indexed : Type 0
Indexed = Bytes × ℕ

-- `operator<` of `std::pair`
abbrev pub pair_ltb : Indexed → Indexed → Bool
pair_ltb a b = if str_ltb a.0 b.0 then true else if str_ltb b.0 a.0 then false else ltb a.1 b.1

-- `vp`, counted from `i`.
unfoldable pub with_indices : ℕ → List Bytes → List Indexed
with_indices i [] = []
with_indices i (x ∷ xs) = (x, i) ∷ with_indices (i + 1) xs

-- The two ranges are what is left of them; the output is what is written from here on.
unfoldable pub custom_set_intersection : List Indexed → List Bytes → List ℕ
custom_set_intersection [] es = []
custom_set_intersection (p ∷ ps) [] = []
custom_set_intersection (p ∷ ps) (e ∷ es) = elim (str_ltb p.0 e) [
  | true ↦ custom_set_intersection ps (e ∷ es)
  | false ↦ elim (str_ltb e p.0) [
    | true ↦ custom_set_intersection (p ∷ ps) es
    | false ↦ p.1 ∷ custom_set_intersection ps es
  ]
]

-- `encrypted` is the member `encrypted_`.
unfoldable pub intersect : List Bytes → List Bytes → List ℕ
intersect encrypted elements =
    custom_set_intersection (sort pair_ltb (with_indices 0 elements)) encrypted

-- The inner loop of the cycle sort of `Create` from index `j`, on fuel: `none` means no fuel left.
unfoldable pub move_cycle :
    List ℕ → ℕ → ℕ → ℕ → List Bytes → List Bool → Option (List Bytes × List Bool)
move_cycle permutation zero i j elements visited = if j == i then some (elements, visited) else none
move_cycle permutation (suc fuel) i j elements visited = elim (j == i) [
  | true ↦ some (elements, visited)
  | false ↦
      move_cycle permutation fuel i (get_or permutation j 0)
        (set elements j (get_or elements (get_or permutation j 0) [])) (set visited j true)
]

-- The last `k` rounds of the outer loop, from index `i`.
unfoldable pub cycle_sort : List ℕ → ℕ → ℕ → List Bytes → List Bool → Option (List Bytes)
cycle_sort permutation i zero elements visited = some elements
cycle_sort permutation i (suc k) elements visited = elim (get_or visited i false) [
  | true ↦ cycle_sort permutation (i + 1) k elements visited
  | false ↦
      let j = get_or permutation i 0 in
      elim (move_cycle permutation (length elements) i j elements visited) [
        | none ↦ none
        | some (moved, visited') ↦
            cycle_sort permutation (i + 1) k (set moved i (get_or elements j [])) visited'
      ]
]

-- `permutation` is what `std::sort` made of the indexes: the elements of the new container.
unfoldable pub create : List ℕ → List Bytes → Option (List Bytes)
create permutation elements =
    cycle_sort permutation 0 (length elements) elements (replicate (length elements) false)
