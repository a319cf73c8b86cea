-- ===== src/Match/Compare.antt =====
-- `CompareElements` of private_set_intersection/cpp/psi_match.cpp.
use Prim.Native.Nat.{lt, eq, gt}
use open_mined_psi.Base.{
  ℕ, zero, suc, min, Ordering, compare, ◌≡◌, refl, Bytes, [], ◌∷◌, arith, length, ltb, ◌==◌,
  if◌then◌else◌, Bool-cases, inl, inr,
}
use open_mined_psi.Base.Order.{lex}

-- `std::memcmp` of the first `n` bytes, by its sign.
pub memcmp : ℕ → Bytes → Bytes → Ordering
memcmp zero a b = eq
memcmp (suc n) [] b = eq
memcmp (suc n) (x ∷ a) [] = eq
memcmp (suc n) (x ∷ a) (y ∷ b) = elim (compare x y) [ lt ↦ lt | eq ↦ memcmp n a b | gt ↦ gt ]

by_size : Bytes → Bytes → Ordering
by_size a b = if length a == length b then eq else if ltb (length a) (length b) then lt else gt

unfoldable pub compare_elements : Bytes → Bytes → Ordering
unfolding memcmp by_size
compare_elements a b =
    let common = min (length a) (length b) in
    if ltb 0 common
    then elim (memcmp common a b) [ lt ↦ lt | eq ↦ by_size a b | gt ↦ gt ]
    else by_size a b

by_size-lex : (a b : Bytes) → min (length a) (length b) ≡ 0 → by_size a b ≡ lex a b
unfolding by_size lex
by_size-lex [] [] h = refl
by_size-lex [] (y ∷ b) h = ground arith
by_size-lex (x ∷ a) [] h = ground arith
by_size-lex (x ∷ a) (y ∷ b) h = absurd (omega arith)

memcmp-lex :
    (n : ℕ) (a b : Bytes)
    → n ≡ min (length a) (length b)
    → elim (memcmp n a b) [ lt ↦ lt | eq ↦ by_size a b | gt ↦ gt ] ≡ lex a b
unfolding memcmp by_size lex
memcmp-lex zero [] [] h = refl
memcmp-lex zero [] (y ∷ b) h = ground arith
memcmp-lex zero (x ∷ a) [] h = ground arith
memcmp-lex zero (x ∷ a) (y ∷ b) h = absurd (omega arith)
memcmp-lex (suc n) [] b h = absurd (omega arith)
memcmp-lex (suc n) (x ∷ a) [] h = absurd (omega arith)
memcmp-lex (suc n) (x ∷ a) (y ∷ b) h =
    let ih : n ≡ min (length a) (length b) = omega arith in ground (arith, memcmp-lex n a b ih)

-- The comparison agrees with the order of `std::string` on every pair of byte strings.
pub compare_elements-lex : (a b : Bytes) → compare_elements a b ≡ lex a b
unfolding compare_elements
compare_elements-lex a b = elim (Bool-cases (ltb 0 (min (length a) (length b)))) [
  | inl some_common ↦ rw some_common (memcmp-lex _ a b refl)
  | inr no_common ↦ rw no_common (by_size-lex a b (ground arith))
]
