-- ===== src/Containers/Raw/Found.antt =====
-- `Raw::Intersect` of private_set_intersection/cpp/datastructure/raw.cpp finds the common elements.
use mathlib.Core.List.{Memᴰ}
use native.Mathlib.Nat.{zero-add}
use mathlib.Core.List.Memᴰ.{head, tail}
use open_mined_psi.Base.{
  ℕ, zero, suc, ◌+◌, ◌<◌, ◌≡◌, ◌≢◌, ◌↔◌, refl, sym, ap, subst, ◌∙◌, true, false, Bytes, List, [],
  ◌∷◌, length, get_or, arith, Bool-cases, inl, inr,
}
use open_mined_psi.Base.Order.{str_ltb, lex, lex_swap, lex_trans, lex-eq, Ordering-cases}
use open_mined_psi.Base.Sort.{IsAscending, IsStrictWeak, insert, sort, mem-sort, mem_of_insert}
use open_mined_psi.Containers.Raw.{Indexed, pair_ltb, with_indices, intersect}
use open_mined_psi.Containers.Raw.Merge.{
  IsRising, mem_of_merge, mem-merge, str_ltb_asym, str_ltb_tri,
}

-- `str_ltb` is transitive on its negation.
pub not_str_ltb_trans :
    (a b c : Bytes) → str_ltb b a ≡ false → str_ltb c b ≡ false → str_ltb c a ≡ false
not_str_ltb_trans a b c h k = elim (Ordering-cases (lex a b)) [
  | inl less ↦ elim (Ordering-cases (lex b c)) [
    | inl less' ↦ ground (arith, lex_swap a c, lex_trans a b c less less')
    | inr (inl same) ↦
        let e = lex-eq b c same in ground (arith, lex_swap a b, rw e at less, lex_swap a c)
    | inr (inr more) ↦ absurd (ground (arith, lex_swap b c))
  ]
  | inr (inl same) ↦ let e = lex-eq a b same in rw e k
  | inr (inr more) ↦ absurd (ground (arith, lex_swap a b))
]

pub str_ltb-IsStrictWeak : IsStrictWeak str_ltb
str_ltb-IsStrictWeak = record { asymmetric = str_ltb_asym; not_less_trans = not_str_ltb_trans }

-- The pairs are the indexes, counted from `k`, with their elements.
mem-with_indices :
    (k : ℕ) (xs : List Bytes) (i : ℕ)
    → i < length xs
    → Memᴰ (get_or xs i [], k + i) (with_indices k xs)
unfolding with_indices
mem-with_indices k [] i h = elim h [ ]
mem-with_indices k (x ∷ xs) zero h = head (ap (λ n. (x, n)) (omega arith))
mem-with_indices k (x ∷ xs) (suc i) h =
    let e : k + suc i ≡ k + 1 + i = omega arith in
    rw e (tail (mem-with_indices (k + 1) xs i (omega arith)))

mem_of_with_indices :
    (k : ℕ) (xs : List Bytes) (x : Bytes) (n : ℕ)
    → Memᴰ (x, n) (with_indices k xs)
    → (i : ℕ) × (n ≡ k + i) × (i < length xs) × (get_or xs i [] ≡ x)
unfolding with_indices
mem_of_with_indices k [] x n m = elim m [ ]
mem_of_with_indices k (y ∷ xs) x n (head e) =
    (0, omega (arith, ap (λ (q : Indexed). q.1) e), omega arith, sym (ap (λ (q : Indexed). q.0) e))
mem_of_with_indices k (y ∷ xs) x n (tail m) =
    let (i, e, h, same) = mem_of_with_indices (k + 1) xs x n m in
    (suc i, omega arith, omega arith, same)

-- No element stands twice.
abbrev pub IsDistinct : List Bytes → Type 0
IsDistinct xs = (i j : ℕ) → i < length xs → j < length xs → get_or xs i [] ≡ get_or xs j [] → i ≡ j

pair_ltb_ne :
    (p q : Indexed)
    → q.0 ≢ p.0
    → (pair_ltb q p ≡ true → str_ltb q.0 p.0 ≡ true)
      × (pair_ltb q p ≡ false → str_ltb p.0 q.0 ≡ true)
pair_ltb_ne p q apart = (
  λ h. elim (Bool-cases (str_ltb q.0 p.0)) [
    | inl yes_below ↦ yes_below
    | inr above ↦ elim (Bool-cases (str_ltb p.0 q.0)) [
      | inl over ↦ absurd (ground (arith, over))
      | inr tied ↦ absurd (apart (str_ltb_tri q.0 p.0 above tied))
    ]
  ],
  λ h. elim (Bool-cases (str_ltb p.0 q.0)) [
    | inl yes_above ↦ yes_above
    | inr below ↦ elim (Bool-cases (str_ltb q.0 p.0)) [
      | inl under ↦ absurd (ground (arith, under))
      | inr tied ↦ absurd (apart (str_ltb_tri q.0 p.0 tied below))
    ]
  ],
)

str_ltb_trans : (a b c : Bytes) → str_ltb a b ≡ true → str_ltb b c ≡ true → str_ltb a c ≡ true
str_ltb_trans a b c h k = ground (arith, lex_trans a b c)

insert-IsRising :
    (p : Indexed) (ps : List Indexed)
    → ((q : Indexed) → Memᴰ q ps → q.0 ≢ p.0)
    → IsRising ps
    → IsRising (insert pair_ltb p ps)
unfolding insert
insert-IsRising p [] apart h = (λ q m. elim m [ ], tt)
insert-IsRising p (x ∷ xs) apart (above, h) =
    let (before, after) = pair_ltb_ne p x (apart x (head refl)) in
    elim (Bool-cases (pair_ltb x p)) [
      | inl less ↦
          rw (less, insert)
            (
              λ q m. elim (mem_of_insert pair_ltb p q xs m) [
                | head e ↦ rw e (before less)
                | tail m' ↦ above q m'
              ],
              insert-IsRising p xs (λ q m. apart q (tail m)) h,
            )
      | inr more ↦
          rw (more, insert)
            (
              λ q m. elim m [
                | head e ↦ rw e (after more)
                | tail m' ↦ str_ltb_trans p.0 x.0 q.0 (after more) (above q m')
              ],
              (above, h),
            )
    ]

sort-IsRising :
    (k : ℕ) (xs : List Bytes) → IsDistinct xs → IsRising (sort pair_ltb (with_indices k xs))
unfolding sort with_indices
sort-IsRising k [] d = tt
sort-IsRising k (x ∷ xs) d =
    insert-IsRising (x, k) (sort pair_ltb (with_indices (k + 1) xs))
      (λ q m e.
        let (i, _, h, same) =
          mem_of_with_indices (k + 1) xs q.0 q.1
            ((mem-sort pair_ltb q (with_indices (k + 1) xs)).0 m) in
        absurd (omega (arith, d (suc i) 0 (omega arith) (omega arith) (same ∙ e))))
      (sort-IsRising (k + 1) xs
        (λ i j h h' e. omega (arith, d (suc i) (suc j) (omega arith) (omega arith) e)))

-- Whatever the order of the container and however often elements stand, an index in the intersection
-- is that of an element which the container has.
pub mem_of_intersect :
    (encrypted elements : List Bytes) (i : ℕ)
    → Memᴰ i (intersect encrypted elements)
    → (i < length elements) × Memᴰ (get_or elements i []) encrypted
unfolding intersect
mem_of_intersect encrypted elements i m =
    let (x, paired, found) = mem_of_merge (sort pair_ltb (with_indices 0 elements)) encrypted i m in
    let (j, e, h, same) =
      mem_of_with_indices 0 elements x i
        ((mem-sort pair_ltb (x, i) (with_indices 0 elements)).0 paired) in
    let here : i ≡ j = omega arith in (omega arith, rw (here, same) found)

-- For a container in ascending order and distinct elements, an index is in the intersection exactly if
-- it is that of an element which the container has.
pub mem-intersect :
    (encrypted elements : List Bytes)
    → IsAscending str_ltb encrypted
    → IsDistinct elements
    → (i : ℕ)
    → Memᴰ i (intersect encrypted elements)
      ↔ ((i < length elements) × Memᴰ (get_or elements i []) encrypted)
unfolding intersect
mem-intersect encrypted elements ascending distinct i =
    let pairs = with_indices 0 elements in
    (
      mem_of_intersect encrypted elements i,
      λ (h, found).
          mem-merge (sort pair_ltb pairs) encrypted (get_or elements i []) i
            (sort-IsRising 0 elements distinct) ascending
            ((mem-sort pair_ltb (get_or elements i [], i) pairs).1 (
              subst (λ (n : ℕ). Memᴰ (get_or elements i [], n) pairs) (zero-add i)
                (mem-with_indices 0 elements i h)))
            found,
    )
