-- ===== src/Containers/Raw/Cycle/Marks.antt =====
-- The marks of the cycle sort of private_set_intersection/cpp/datastructure/raw.cpp: which indexes are in
-- place.
use open_mined_psi.Base.{
  ℕ, zero, suc, ◌≤◌, ◌<◌, ◌≡◌, ◌≢◌, refl, ap, ltb, Bool, true, false, ◌||◌, List, [], ◌∷◌, length,
  get_or, set, arith, get_or-set_self, get_or-set_ne,
}

-- The indexes below `n`, each once.
pub record IsPermutation (p : List ℕ) (n : ℕ) : Type 0 where
  pub size : length p ≡ n
  pub inside : (i : ℕ) → i < n → get_or p i 0 < n
  pub once : (i j : ℕ) → i < n → j < n → get_or p i 0 ≡ get_or p j 0 → i ≡ j
  pub every : (j : ℕ) → j < n → (i : ℕ) × (i < n) × (get_or p i 0 ≡ j)

-- Index `k` is in place: the outer loop has passed it, or a cycle has visited it.
abbrev pub placed : ℕ → List Bool → ℕ → Bool
placed i v k = ltb k i || get_or v k false

pub placed-set_self : (i j : ℕ) (v : List Bool) → j < length v → placed i (set v j true) j ≡ true
placed-set_self i j v h = ground (arith, get_or-set_self v j true false h)

pub placed-set_ne : (i j k : ℕ) (v : List Bool) → j ≢ k → placed i (set v j true) k ≡ placed i v k
placed-set_ne i j k v h = ap (λ b. ltb k i || b) (get_or-set_ne v j k true false h)

-- How many are not visited.
pub left : List Bool → ℕ
left [] = 0
left (true ∷ v) = left v
left (false ∷ v) = suc (left v)

pub left-set :
    (v : List Bool) (j : ℕ)
    → j < length v
    → get_or v j false ≡ false
    → left v ≡ suc (left (set v j true))
unfolding left
left-set [] j h e = elim h [ ]
left-set (true ∷ v) zero h e = cc
left-set (false ∷ v) zero h e = refl
left-set (true ∷ v) (suc j) h e = left-set v j (omega arith) e
left-set (false ∷ v) (suc j) h e = ap suc (left-set v j (omega arith) e)

pub left-le-length : (v : List Bool) → left v ≤ length v
unfolding left
left-le-length [] = omega arith
left-le-length (true ∷ v) = omega (arith, left-le-length v)
left-le-length (false ∷ v) = omega (arith, left-le-length v)
