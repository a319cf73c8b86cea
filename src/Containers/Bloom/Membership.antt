-- ===== src/Containers/Bloom/Membership.antt =====
-- What a filter of private_set_intersection/cpp/datastructure/bloom_filter.cpp answers after additions.
use open_mined_psi.Base.{
  ℕ, zero, suc, ◌+◌, ◌*◌, ◌/◌, ◌%◌, ◌<◌, ◌≡◌, ◌≢◌, ◌↔◌, inl, inr, refl, sym, ◌∙◌, true, false,
  Bytes, List, [], ◌∷◌, ◌++◌, length, get_or, push_back, arith, ◌==◌, if◌then◌else◌, Bool-cases,
  get_or-set_self, get_or-set_ne, length-set, subst, append_assoc, append-nil,
}
use open_mined_psi.Base.Bits.{set_bit, bit-set_bit_self, bit-set_bit_ne}
use open_mined_psi.Containers.Bloom.{
  BloomFilter, hash_from, hash, set_index, set_indices, add, check_index, check_indices, check,
  intersect_from, intersect,
}

length-set_index : (bits : Bytes) (i : ℕ) → length (set_index bits i) ≡ length bits
unfolding set_index
length-set_index bits i = length-set bits (i / 8) _

-- A set bit reads as set, and the others stay as they were.
check_index-set_self :
    (bits : Bytes) (i : ℕ) → i < 8 * length bits → check_index (set_index bits i) i ≡ true
unfolding set_index check_index
check_index-set_self bits i h =
    let word : i / 8 < length bits = omega arith in
    rw (get_or-set_self bits (i / 8) (set_bit (i % 8) (get_or bits (i / 8) 0)) 0 word)
      (ground (arith, bit-set_bit_self (i % 8) (get_or bits (i / 8) 0)))

check_index-set_ne :
    (bits : Bytes) (i j : ℕ)
    → i < 8 * length bits
    → j ≢ i
    → check_index (set_index bits i) j ≡ check_index bits j
unfolding set_index check_index
check_index-set_ne bits i j h apart = elim (Bool-cases (j / 8 == i / 8)) [
  | inl same ↦
      let here : j / 8 ≡ i / 8 = ground arith in
      let word : i / 8 < length bits = omega arith in
      rw (
        here,
        get_or-set_self bits (i / 8) (set_bit (i % 8) (get_or bits (i / 8) 0)) 0 word,
        bit-set_bit_ne (j % 8) (i % 8) (get_or bits (i / 8) 0) (λ e. apart (omega arith)),
      )
  | inr other ↦ rw (
      get_or-set_ne bits (i / 8) (j / 8) (set_bit (i % 8) (get_or bits (i / 8) 0)) 0 (ground arith))
]

check_index-set_mono :
    (bits : Bytes) (i j : ℕ)
    → i < 8 * length bits
    → check_index bits j ≡ true
    → check_index (set_index bits i) j ≡ true
check_index-set_mono bits i j h was = elim (Bool-cases (j == i)) [
  | inl same ↦ let here : j ≡ i = ground arith in rw here (check_index-set_self bits i h)
  | inr other ↦ check_index-set_ne bits i j h (ground arith) ∙ was
]

-- Every index of a list is below `n`; every bit of a list is set.
abbrev Below : ℕ → List ℕ → Type 0
Below n [] = Unit
Below n (i ∷ is) = (i < n) × Below n is

abbrev AllSet : Bytes → List ℕ → Type 0
AllSet bits [] = Unit
AllSet bits (i ∷ is) = (check_index bits i ≡ true) × AllSet bits is

length-set_indices : (is : List ℕ) (bits : Bytes) → length (set_indices bits is) ≡ length bits
unfolding set_indices
length-set_indices [] bits = refl
length-set_indices (i ∷ is) bits =
    length-set_indices is (set_index bits i) ∙ length-set_index bits i

set_indices_mono :
    (is : List ℕ) (bits : Bytes) (j : ℕ)
    → Below (8 * length bits) is
    → check_index bits j ≡ true
    → check_index (set_indices bits is) j ≡ true
unfolding set_indices
set_indices_mono [] bits j b was = was
set_indices_mono (i ∷ is) bits j b was =
    set_indices_mono is (set_index bits i) j
      (subst (λ n. Below (8 * n) is) (sym (length-set_index bits i)) b.1)
      (check_index-set_mono bits i j b.0 was)

AllSet-mono :
    (js is : List ℕ) (bits : Bytes)
    → Below (8 * length bits) is
    → AllSet bits js
    → AllSet (set_indices bits is) js
AllSet-mono [] is bits b a = tt
AllSet-mono (j ∷ js) is bits b a = (set_indices_mono is bits j b a.0, AllSet-mono js is bits b a.1)

set_indices-AllSet :
    (is : List ℕ) (bits : Bytes) → Below (8 * length bits) is → AllSet (set_indices bits is) is
unfolding set_indices
set_indices-AllSet [] bits b = tt
set_indices-AllSet (i ∷ is) bits b =
    let b' = subst (λ n. Below (8 * n) is) (sym (length-set_index bits i)) b.1 in
    (
      set_indices_mono is (set_index bits i) i b' (check_index-set_self bits i b.0),
      set_indices-AllSet is (set_index bits i) b',
    )

check_indices-false : (is : List ℕ) (bits : Bytes) → check_indices bits false is ≡ false
unfolding check_indices
check_indices-false [] bits = refl
check_indices-false (i ∷ is) bits = check_indices-false is bits

check_indices-AllSet :
    (is : List ℕ) (bits : Bytes) → (check_indices bits true is ≡ true) ↔ AllSet bits is
unfolding check_indices
check_indices-AllSet [] bits = (λ _. tt, λ _. refl)
check_indices-AllSet (i ∷ is) bits = elim (Bool-cases (check_index bits i)) [
  | inl is_set ↦
      let (to, from) = check_indices-AllSet is bits in rw is_set (λ h. (refl, to h), λ h. from h.1)
  | inr clear ↦ rw (clear, check_indices-false is bits) (λ h. cc, λ h. cc)
]

module _ (sha256 : Bytes → ℕ) where
  hash_from-Below : (h1 h2 n i k : ℕ) → 0 < n → Below n (hash_from sha256 h1 h2 n i k)
  unfolding hash_from
  hash_from-Below h1 h2 n i zero p = tt
  hash_from-Below h1 h2 n i (suc k) p = (grind arith, hash_from-Below h1 h2 n (i + 1) k p)

  hash-Below :
      (f : BloomFilter) (x : Bytes)
      → 0 < length f.bits
      → Below (8 * length f.bits) (hash sha256 f x)
  unfolding hash
  hash-Below f x p = hash_from-Below _ _ (8 * length f.bits) 0 f.num_hash_functions (omega arith)

  -- The hashes depend on the shape of the filter alone.
  hash_shape :
      (f g : BloomFilter) (x : Bytes)
      → length f.bits ≡ length g.bits
      → f.num_hash_functions ≡ g.num_hash_functions
      → hash sha256 f x ≡ hash sha256 g x
  unfolding hash
  hash_shape f g x e k = rw (e, k)

  abbrev added : BloomFilter → Bytes → BloomFilter
  added f x = record f { bits = set_indices f.bits (hash sha256 f x) }

  add_shape :
      (xs : List Bytes) (f : BloomFilter)
      → (length (add sha256 f xs).bits ≡ length f.bits)
        × ((add sha256 f xs).num_hash_functions ≡ f.num_hash_functions)
  unfolding add
  add_shape [] f = (refl, refl)
  add_shape (x ∷ xs) f =
      let (size, count) = add_shape xs (added f x) in
      (size ∙ length-set_indices (hash sha256 f x) f.bits, count)

  -- An addition clears nothing.
  add_keeps :
      (xs : List Bytes) (f : BloomFilter) (is : List ℕ)
      → 0 < length f.bits
      → AllSet f.bits is
      → AllSet (add sha256 f xs).bits is
  unfolding add
  add_keeps [] f is p a = a
  add_keeps (x ∷ xs) f is p a =
      add_keeps xs (added f x) is (omega (arith, length-set_indices (hash sha256 f x) f.bits))
        (AllSet-mono is (hash sha256 f x) f.bits (hash-Below f x p) a)

  check-AllSet :
      (f : BloomFilter) (x : Bytes) → (check sha256 f x ≡ true) ↔ AllSet f.bits (hash sha256 f x)
  unfolding check
  check-AllSet f x = check_indices-AllSet (hash sha256 f x) f.bits

  check-added :
      (f : BloomFilter) (x : Bytes) → 0 < length f.bits → check sha256 (added f x) x ≡ true
  check-added f x p = (check-AllSet (added f x) x).1 (
      rw (hash_shape (added f x) f x (length-set_indices (hash sha256 f x) f.bits) refl)
        (set_indices-AllSet (hash sha256 f x) f.bits (hash-Below f x p)))

  -- What a filter answers yes to, it answers yes to after any additions.
  pub check-add_mono :
      (f : BloomFilter) (xs : List Bytes) (x : Bytes)
      → 0 < length f.bits
      → check sha256 f x ≡ true
      → check sha256 (add sha256 f xs) x ≡ true
  check-add_mono f xs x p was =
      let (size, count) = add_shape xs f in
      (check-AllSet (add sha256 f xs) x).1 (
        rw (hash_shape (add sha256 f xs) f x size count)
          (add_keeps xs f (hash sha256 f x) p ((check-AllSet f x).0 was)))

  -- There are no false negatives: an added element is found, wherever it stands among the additions.
  pub check-add :
      (f : BloomFilter) (before : List Bytes) (x : Bytes) (after : List Bytes)
      → 0 < length f.bits
      → check sha256 (add sha256 f (before ++ x ∷ after)) x ≡ true
  unfolding add
  check-add f [] x after p =
      check-add_mono (added f x) after x
        (omega (arith, length-set_indices (hash sha256 f x) f.bits)) (check-added f x p)
  check-add f (y ∷ before) x after p =
      check-add (added f y) before x after
        (omega (arith, length-set_indices (hash sha256 f y) f.bits))

  -- The numbers, counted from `i`, of the elements that the filter answers yes to.
  unfoldable pub hits_from : BloomFilter → ℕ → List Bytes → List ℕ
  hits_from f i [] = []
  hits_from f i (x ∷ xs) =
      if check sha256 f x then i ∷ hits_from f (i + 1) xs else hits_from f (i + 1) xs

  intersect_from-hits :
      (f : BloomFilter) (xs : List Bytes) (i : ℕ) (res : List ℕ)
      → intersect_from sha256 f i xs res ≡ res ++ hits_from f i xs
  unfolding intersect_from hits_from
  intersect_from-hits f [] i res = sym (append-nil res)
  intersect_from-hits f (x ∷ xs) i res = elim (Bool-cases (check sha256 f x)) [
    | inl yes_hit ↦ rw yes_hit (
        intersect_from-hits f xs (i + 1) (push_back res i)
        ∙ append_assoc res (i ∷ []) (hits_from f (i + 1) xs))
    | inr miss ↦ rw miss (intersect_from-hits f xs (i + 1) res)
  ]

  -- `Intersect` lists, in ascending order, exactly the indexes whose elements the filter answers yes
  -- to.
  pub intersect-hits :
      (f : BloomFilter) (xs : List Bytes) → intersect sha256 f xs ≡ hits_from f 0 xs
  unfolding intersect
  intersect-hits f xs = intersect_from-hits f xs 0 []
