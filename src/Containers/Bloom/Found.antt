-- ===== src/Containers/Bloom/Found.antt =====
-- What `BloomFilter::Create` and `BloomFilter::Intersect` of
-- private_set_intersection/cpp/datastructure/bloom_filter.cpp find.
use mathlib.Core.List.{Memᴰ}
use mathlib.Core.List.Memᴰ.{head, tail}
use native.Mathlib.Nat.{zero-add}
use open_mined_psi.Base.{
  ℕ, zero, suc, ◌+◌, ◌<◌, ◌≡◌, sym, ap, subst, true, false, ◌||◌, Bytes, List, [], ◌∷◌, ◌++◌,
  length, replicate, get_or, arith, Bool-cases, inl, inr, length-replicate,
}
use open_mined_psi.Base.Integer.{ℤ, larger}
use open_mined_psi.Containers.Doubles.{Doubles}
use open_mined_psi.Status.{ok}
use open_mined_psi.Containers.Bloom.{BloomFilter, create_empty, create, add, check, intersect}
use open_mined_psi.Containers.Bloom.Membership.{check-add, hits_from, intersect-hits}

split_at :
    (x : Bytes) (xs : List Bytes)
    → Memᴰ x xs
    → (before : List Bytes) × (after : List Bytes) × (xs ≡ before ++ x ∷ after)
split_at x [] m = elim m [ ]
split_at x (y ∷ xs) (head e) = ([], xs, ap (λ z. z ∷ xs) (sym e))
split_at x (y ∷ xs) (tail m) =
    let (before, after, e) = split_at x xs m in (y ∷ before, after, ap (◌∷◌ y) e)

module _ (sha256 : Bytes → ℕ) where
  -- For a rate inside the unit interval and a filter that has a byte, a filter is made, and it answers
  -- yes to each of its elements.
  pub create-check :
      (d : Doubles) (fpr : d.Double) (num_client_inputs : ℤ) (elements : List Bytes)
      → (d.le_zero fpr || d.ge_one fpr) ≡ false
      → 0 < d.filter_bytes fpr (larger num_client_inputs (length elements))
      → (f : BloomFilter) × (create sha256 d fpr num_client_inputs elements ≡ ok f)
        × ((x : Bytes) → Memᴰ x elements → check sha256 f x ≡ true)
  unfolding create create_empty
  create-check d fpr n elements inside some_bytes =
      let bits = replicate (d.filter_bytes fpr (larger n (length elements))) 0 in
      let empty : BloomFilter = record { num_hash_functions = d.hash_functions fpr; bits = bits } in
      (
        add sha256 empty elements,
        rw (inside, create, create_empty),
        λ x m.
            let (before, after, e) = split_at x elements m in
            subst (λ l. check sha256 (add sha256 empty l) x ≡ true) (sym e)
              (check-add sha256 empty before x after (
                omega (
                  arith,
                  length-replicate {A = ℕ} (d.filter_bytes fpr (larger n (length elements))) 0,
                ))),
      )

  mem-hits :
      (f : BloomFilter) (xs : List Bytes) (k i : ℕ)
      → i < length xs
      → check sha256 f (get_or xs i []) ≡ true
      → Memᴰ (k + i) (hits_from sha256 f k xs)
  unfolding hits_from
  mem-hits f [] k i h c = elim h [ ]
  mem-hits f (x ∷ xs) k zero h c = rw c (head (omega arith))
  mem-hits f (x ∷ xs) k (suc i) h c =
      let e : k + suc i ≡ k + 1 + i = omega arith in
      let rest = mem-hits f xs (k + 1) i (omega arith) c in
      rw e (elim (Bool-cases (check sha256 f x)) [
        | inl yes_hit ↦ rw yes_hit (tail rest)
        | inr miss ↦ rw miss rest
      ])

  -- An index whose element the filter answers yes to is in the intersection.
  pub mem_of_check :
      (f : BloomFilter) (xs : List Bytes) (i : ℕ)
      → i < length xs
      → check sha256 f (get_or xs i []) ≡ true
      → Memᴰ i (intersect sha256 f xs)
  mem_of_check f xs i h c =
      rw (intersect-hits sha256 f xs)
        (subst (λ (n : ℕ). Memᴰ n (hits_from sha256 f 0 xs)) (zero-add i) (mem-hits f xs 0 i h c))
