-- ===== src/Tests/Orders.antt =====
-- Indexes that `std::sort` put in order.
use open_mined_psi.Base.{
  ℕ, zero, suc, ◌<◌, ◌≡◌, refl, sym, ◌∙◌, false, ap, Bytes, List, [], ◌∷◌, get_or, arith,
}
use open_mined_psi.Base.Order.{str_ltb, lex}
use open_mined_psi.Containers.Raw.Cycle.{IsPermutation}
use open_mined_psi.Containers.Raw.Sorted.{Orders}

-- The elements 5, 1, 3 and the order 1, 3, 5: one cycle of three indexes.
abbrev pub unsorted : List Bytes
unsorted = (5 ∷ []) ∷ (1 ∷ []) ∷ (3 ∷ []) ∷ []

abbrev pub order_of : List ℕ
order_of = 1 ∷ 2 ∷ 0 ∷ []

abbrev pub place_of : List ℕ
place_of = 2 ∷ 0 ∷ 1 ∷ []

below_three :
    (i : ℕ)
    → i < 3
    → (get_or order_of i 0 < 3)
      × (get_or place_of i 0 < 3)
      × (get_or place_of (get_or order_of i 0) 0 ≡ i)
      × (get_or order_of (get_or place_of i 0) 0 ≡ i)
below_three zero h = (omega arith, omega arith, refl, refl)
below_three (suc zero) h = (omega arith, omega arith, refl, refl)
below_three (suc (suc zero)) h = (omega arith, omega arith, refl, refl)
below_three (suc (suc (suc i))) h = absurd (omega arith)

pub order_of-IsPermutation : IsPermutation order_of 3
order_of-IsPermutation = record {
  size = refl;
  inside = λ i h. (below_three i h).0;
  once =
      λ i j h k e. sym (below_three i h).2 ∙ ap (λ n. get_or place_of n 0) e ∙ (below_three j k).2;
  every = λ j h. (get_or place_of j 0, (below_three j h).1, (below_three j h).3);
}

pub order_of-Orders : Orders order_of unsorted
order_of-Orders = record { permutes = order_of-IsPermutation; in_order = in_order }
  where
    in_order :
        (i j : ℕ)
        → i < j
        → j < 3
        → str_ltb
            (get_or unsorted (get_or order_of j 0) [])
            (get_or unsorted (get_or order_of i 0) [])
          ≡ false
    in_order i zero h k = absurd (omega arith)
    in_order zero (suc zero) h k = unfold lex in refl
    in_order (suc i) (suc zero) h k = absurd (omega arith)
    in_order zero (suc (suc zero)) h k = unfold lex in refl
    in_order (suc zero) (suc (suc zero)) h k = unfold lex in refl
    in_order (suc (suc i)) (suc (suc zero)) h k = absurd (omega arith)
    in_order i (suc (suc (suc j))) h k = absurd (omega arith)

pub keyed-Orders : Orders order_of ((2 ∷ 5 ∷ []) ∷ (2 ∷ 1 ∷ []) ∷ (2 ∷ 3 ∷ []) ∷ [])
keyed-Orders = record { permutes = order_of-IsPermutation; in_order = in_order }
  where
    in_order :
        (i j : ℕ)
        → i < j
        → j < 3
        → str_ltb
            (get_or ((2 ∷ 5 ∷ []) ∷ (2 ∷ 1 ∷ []) ∷ (2 ∷ 3 ∷ []) ∷ []) (get_or order_of j 0) [])
            (get_or ((2 ∷ 5 ∷ []) ∷ (2 ∷ 1 ∷ []) ∷ (2 ∷ 3 ∷ []) ∷ []) (get_or order_of i 0) [])
          ≡ false
    in_order i zero h k = absurd (omega arith)
    in_order zero (suc zero) h k = unfold lex in refl
    in_order (suc i) (suc zero) h k = absurd (omega arith)
    in_order zero (suc (suc zero)) h k = unfold lex in refl
    in_order (suc zero) (suc (suc zero)) h k = unfold lex in refl
    in_order (suc (suc i)) (suc (suc zero)) h k = absurd (omega arith)
    in_order i (suc (suc (suc j))) h k = absurd (omega arith)
