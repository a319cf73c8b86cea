-- ===== src/Base/Order.antt =====
-- The order of `std::string`: unsigned bytes, a proper prefix first.
use mathlib.Core.Path.{◌≡◌, refl}
use Prim.Native.Nat.{ℕ, compare, Ordering, lt, eq, gt}
use mathlib.Core.List.{List, [], ◌∷◌}
use mathlib.Core.Logic.{◌⊎◌, inl, inr, ◌≢◌}
use mathlib.Core.Bool.{Bool, true, false}
use native.Mathlib.Omega.{arith}

unfoldable pub lex : List ℕ → List ℕ → Ordering
lex [] [] = eq
lex [] (y ∷ b) = lt
lex (x ∷ a) [] = gt
lex (x ∷ a) (y ∷ b) = elim (compare x y) [ lt ↦ lt | eq ↦ lex a b | gt ↦ gt ]

-- `a < b` on `std::string`
abbrev pub str_ltb : List ℕ → List ℕ → Bool
str_ltb a b = elim (lex a b) [ lt ↦ true | _ ↦ false ]

-- `a == b` on `std::string`
abbrev pub str_eqb : List ℕ → List ℕ → Bool
str_eqb a b = elim (lex a b) [ eq ↦ true | _ ↦ false ]

pub lex_refl : (a : List ℕ) → lex a a ≡ eq
unfolding lex
lex_refl [] = refl
lex_refl (x ∷ a) = ground (arith, lex_refl a)

pub lex-eq : (a b : List ℕ) → lex a b ≡ eq → a ≡ b
unfolding lex
lex-eq [] [] h = refl
lex-eq [] (y ∷ b) h = cc
lex-eq (x ∷ a) [] h = cc
lex-eq (x ∷ a) (y ∷ b) h = ground (arith, lex-eq a b)

-- Swapping the arguments swaps the answer.
abbrev pub flip : Ordering → Ordering
flip lt = gt
flip eq = eq
flip gt = lt

pub lex_swap : (a b : List ℕ) → lex b a ≡ flip (lex a b)
unfolding lex
lex_swap [] [] = refl
lex_swap [] (y ∷ b) = refl
lex_swap (x ∷ a) [] = refl
lex_swap (x ∷ a) (y ∷ b) = ground (arith, lex_swap a b)

pub lex_trans : (a b c : List ℕ) → lex a b ≡ lt → lex b c ≡ lt → lex a c ≡ lt
unfolding lex
lex_trans [] [] c h k = cc
lex_trans [] (y ∷ b) [] h k = cc
lex_trans [] (y ∷ b) (z ∷ c) h k = refl
lex_trans (x ∷ a) [] c h k = cc
lex_trans (x ∷ a) (y ∷ b) [] h k = cc
lex_trans (x ∷ a) (y ∷ b) (z ∷ c) h k = ground (arith, lex_trans a b c)

pub Ordering-cases : (o : Ordering) → (o ≡ lt) ⊎ ((o ≡ eq) ⊎ (o ≡ gt))
Ordering-cases lt = inl refl
Ordering-cases eq = inr (inl refl)
Ordering-cases gt = inr (inr refl)

pub lex-lt_of_gt : (a b : List ℕ) → lex a b ≡ gt → lex b a ≡ lt
lex-lt_of_gt a b h = rw (lex_swap a b, h)

pub lex-gt_of_lt : (a b : List ℕ) → lex a b ≡ lt → lex b a ≡ gt
lex-gt_of_lt a b h = rw (lex_swap a b, h)

pub lex-lt_ne : (a b : List ℕ) → lex a b ≡ lt → a ≢ b
lex-lt_ne a b h e = cc (lex_refl b, rw e at h)
