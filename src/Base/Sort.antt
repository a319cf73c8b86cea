-- ===== src/Base/Sort.antt =====
-- `std::sort` by a comparison, and what the sorted list is.
use mathlib.Core.Path.{◌≡◌, refl}
use mathlib.Core.Logic.{◌↔◌, inl, inr}
use mathlib.Core.Bool.{Bool, true, false}
use mathlib.Core.List.{List, [], ◌∷◌, Memᴰ}
use mathlib.Core.List.Memᴰ.{head, tail}
use open_mined_psi.Base.Tests.{Bool-cases}

module _ {ℓ} {A : Type ℓ} (less : A → A → Bool) where
  unfoldable pub insert : A → List A → List A
  insert a [] = a ∷ []
  insert a (x ∷ xs) = elim (less x a) [ true ↦ x ∷ insert a xs | false ↦ a ∷ x ∷ xs ]

  -- The order of elements that compare as equal is that of the input.
  unfoldable pub sort : List A → List A
  sort [] = []
  sort (x ∷ xs) = insert x (sort xs)

  -- No element is less than one before it.
  abbrev pub IsAscending : List A → Type ℓ
  IsAscending [] = Unit
  IsAscending (x ∷ xs) = ((y : A) → Memᴰ y xs → less y x ≡ false) × IsAscending xs

  mem-insert_self : (a : A) (xs : List A) → Memᴰ a (insert a xs)
  unfolding insert
  mem-insert_self a [] = head refl
  mem-insert_self a (x ∷ xs) = elim (Bool-cases (less x a)) [
    | inl before ↦ rw (before, insert) (tail (mem-insert_self a xs))
    | inr here ↦ rw (here, insert) (head refl)
  ]

  mem-insert_old : (a b : A) (xs : List A) → Memᴰ b xs → Memᴰ b (insert a xs)
  unfolding insert
  mem-insert_old a b [] m = elim m [ ]
  mem-insert_old a b (x ∷ xs) m = elim (Bool-cases (less x a)) [
    | inl before ↦
        rw (before, insert) (elim m [ head e ↦ head e | tail m' ↦ tail (mem-insert_old a b xs m') ])
    | inr here ↦ rw (here, insert) (tail m)
  ]

  pub mem_of_insert : (a b : A) (xs : List A) → Memᴰ b (insert a xs) → Memᴰ b (a ∷ xs)
  unfolding insert
  mem_of_insert a b [] m = m
  mem_of_insert a b (x ∷ xs) m = elim (Bool-cases (less x a)) [
    | inl before ↦ elim (rw (before, insert) at m) [
      | head e ↦ tail (head e)
      | tail m' ↦ elim (mem_of_insert a b xs m') [ head e ↦ head e | tail m'' ↦ tail (tail m'') ]
    ]
    | inr here ↦ rw (here, insert) at m
  ]

  -- Sorting keeps the elements.
  pub mem-sort : (b : A) (xs : List A) → Memᴰ b (sort xs) ↔ Memᴰ b xs
  unfolding sort
  mem-sort b [] = (λ m. m, λ m. m)
  mem-sort b (x ∷ xs) = (
    λ m. elim (mem_of_insert x b (sort xs) m) [
      | head e ↦ head e
      | tail m' ↦ tail ((mem-sort b xs).0 m')
    ],
    λ m. elim m [
      | head e ↦ rw e (mem-insert_self x (sort xs))
      | tail m' ↦ mem-insert_old x b (sort xs) ((mem-sort b xs).1 m')
    ],
  )

  -- `less` is a strict weak order, as `std::sort` asks.
  pub record IsStrictWeak : Type ℓ where
    pub asymmetric : (a b : A) → less a b ≡ true → less b a ≡ false
    pub not_less_trans : (a b c : A) → less b a ≡ false → less c b ≡ false → less c a ≡ false

  module _ (order : IsStrictWeak) where
    insert-IsAscending : (a : A) (xs : List A) → IsAscending xs → IsAscending (insert a xs)
    unfolding insert
    insert-IsAscending a [] h = (λ y m. elim m [ ], tt)
    insert-IsAscending a (x ∷ xs) (above, h) = elim (Bool-cases (less x a)) [
      | inl before ↦
          rw (before, insert)
            (
              λ y m. elim (mem_of_insert a y xs m) [
                | head e ↦ rw e (order.asymmetric x a before)
                | tail m' ↦ above y m'
              ],
              insert-IsAscending a xs h,
            )
      | inr here ↦
          rw (here, insert)
            (
              λ y m. elim m [
                | head e ↦ rw e here
                | tail m' ↦ order.not_less_trans a x y here (above y m')
              ],
              (above, h),
            )
    ]

    pub sort-IsAscending : (xs : List A) → IsAscending (sort xs)
    unfolding sort
    sort-IsAscending [] = tt
    sort-IsAscending (x ∷ xs) = insert-IsAscending x (sort xs) (sort-IsAscending xs)
