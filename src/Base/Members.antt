-- ===== src/Base/Members.antt =====
-- Membership by index.
use mathlib.Core.List.{Memᴰ}
use mathlib.Core.List.Memᴰ.{head, tail}
use mathlib.Core.Path.{◌≡◌, refl, sym, ap, subst}
use mathlib.Core.Bool.{Bool, false}
use mathlib.Core.List.{List, [], ◌∷◌, map}
use native.Mathlib.Omega.{arith}
use Prim.Native.Nat.{ℕ, zero, suc, ◌<◌}
use open_mined_psi.Base.Lists.{length, get_or}
use open_mined_psi.Base.Sort.{IsAscending}

module _ {ℓ} {A : Type ℓ} where
  pub mem-get_or : (xs : List A) (i : ℕ) (d : A) → i < length xs → Memᴰ (get_or xs i d) xs
  mem-get_or [] i d h = elim h [ ]
  mem-get_or (x ∷ xs) zero d h = head refl
  mem-get_or (x ∷ xs) (suc i) d h = tail (mem-get_or xs i d (omega arith))

  pub index_of_mem :
      (xs : List A) (x d : A) → Memᴰ x xs → (i : ℕ) × (i < length xs) × (get_or xs i d ≡ x)
  index_of_mem [] x d m = elim m [ ]
  index_of_mem (y ∷ xs) x d (head e) = (0, omega arith, sym e)
  index_of_mem (y ∷ xs) x d (tail m) =
      let (i, h, e) = index_of_mem xs x d m in (suc i, omega arith, e)

  -- Ascending by index is ascending.
  pub IsAscending-of_index :
      (less : A → A → Bool) (d : A) (xs : List A)
      → ((i j : ℕ) → i < j → j < length xs → less (get_or xs j d) (get_or xs i d) ≡ false)
      → IsAscending less xs
  IsAscending-of_index less d [] h = tt
  IsAscending-of_index less d (x ∷ xs) h = (
    λ y m.
        let (j, q, e) = index_of_mem xs y d m in
        subst (λ z. less z x ≡ false) e (h 0 (suc j) (omega arith) (omega arith)),
    IsAscending-of_index less d xs (λ i j p q. h (suc i) (suc j) (omega arith) (omega arith)),
  )

module _ {ℓ κ} {A : Type ℓ} {B : Type κ} (f : A → B) where
  pub mem-map : (x : A) (xs : List A) → Memᴰ x xs → Memᴰ (f x) (map f xs)
  mem-map x [] m = elim m [ ]
  mem-map x (y ∷ xs) (head e) = head (ap f e)
  mem-map x (y ∷ xs) (tail m) = tail (mem-map x xs m)

  pub mem_of_map : (v : B) (xs : List A) → Memᴰ v (map f xs) → (x : A) × Memᴰ x xs × (v ≡ f x)
  mem_of_map v [] m = elim m [ ]
  mem_of_map v (x ∷ xs) (head e) = (x, head refl, e)
  mem_of_map v (x ∷ xs) (tail m) = let (y, n, e) = mem_of_map v xs m in (y, tail n, e)
