-- ===== src/Containers/Raw/Sorted.antt =====
-- What `Raw::Create` of private_set_intersection/cpp/datastructure/raw.cpp makes of its elements.
use mathlib.Core.List.{Memᴰ}
use open_mined_psi.Base.{
  ℕ, ◌<◌, ◌≡◌, ◌↔◌, sym, ◌∙◌, subst, false, Bytes, List, [], some, length, get_or, arith,
}
use open_mined_psi.Base.Order.{str_ltb}
use open_mined_psi.Base.Sort.{IsAscending}
use open_mined_psi.Base.Members.{mem-get_or, index_of_mem, IsAscending-of_index}
use open_mined_psi.Containers.Raw.{create}
use open_mined_psi.Containers.Raw.Cycle.{IsPermutation, create-eq}

-- What `std::sort` promises of the indexes of `xs`: a permutation of them, in an order in which no
-- element is less than one before it.
pub record Orders (p : List ℕ) (xs : List Bytes) : Type 0 where
  pub permutes : IsPermutation p (length xs)
  pub in_order :
      (i j : ℕ)
      → i < j
      → j < length xs
      → str_ltb (get_or xs (get_or p j 0) []) (get_or xs (get_or p i 0) []) ≡ false

-- From indexes that `std::sort` put in order the container ends up in ascending order, with the
-- elements that it was given.
pub create-IsAscending :
    (p : List ℕ) (xs : List Bytes)
    → Orders p xs
    → (ys : List Bytes) × (create p xs ≡ some ys)
      × (length ys ≡ length xs)
      × IsAscending str_ltb ys
      × ((x : Bytes) → Memᴰ x ys ↔ Memᴰ x xs)
create-IsAscending p xs o =
    let (ys, ran, size, value) = create-eq xs p o.permutes in
    (
      ys,
      ran,
      size,
      IsAscending-of_index str_ltb [] ys (λ i j h q.
          rw (value i (omega arith), value j (omega arith)) (o.in_order i j h (omega arith))),
      λ x. (
        λ m.
            let (k, h, e) = index_of_mem ys x [] m in
            subst (λ z. Memᴰ z xs) (sym (value k (omega arith)) ∙ e)
              (mem-get_or xs (get_or p k 0) [] (o.permutes.inside k (omega arith))),
        λ m.
            let (j, h, e) = index_of_mem xs x [] m in
            let (k, q, at_k) = o.permutes.every j h in
            subst (λ z. Memᴰ z ys) (value k q ∙ rw at_k e) (mem-get_or ys k [] (omega arith)),
      ),
    )
