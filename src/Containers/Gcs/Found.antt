-- ===== src/Containers/Gcs/Found.antt =====
-- What `GCS::Intersect` of private_set_intersection/cpp/datastructure/gcs.cpp finds in a set that
-- `GCS::Create` made.
use mathlib.Core.List.{Memᴰ}
use mathlib.Core.List.Memᴰ.{head, tail}
use open_mined_psi.Base.{
  ℕ, zero, suc, ◌+◌, ◌<◌, ◌≡◌, ◌↔◌, refl, sym, ap, ◌∙◌, subst, false, ◌||◌, ltb, Bytes, List, [],
  ◌∷◌, Bool, map, none, some, length, get_or, arith,
}
use open_mined_psi.Base.Sort.{IsAscending, IsStrictWeak, sort, sort-IsAscending, mem-sort}
use open_mined_psi.Base.Members.{mem-map, mem_of_map}
use open_mined_psi.Base.Integer.{ℤ, larger}
use open_mined_psi.Containers.Doubles.{Doubles}
use open_mined_psi.Status.{ok}
use open_mined_psi.Containers.Golomb.{GolombCompressed, div_of, compress_with, golomb_intersect}
use open_mined_psi.Containers.Golomb.Merge.{Entry, IsRising}
use open_mined_psi.Containers.Golomb.Values.{
  golomb_compress-compress_with, golomb_intersect-golomb_compress,
}
use open_mined_psi.Containers.Gcs.{Gcs, hash, create, hashes_from, intersect}

-- The order of `std::sort` on numbers, and that on pairs by number.
ltb-IsStrictWeak : IsStrictWeak ltb
ltb-IsStrictWeak = record {
  asymmetric = λ a b h. ground arith;
  not_less_trans = λ a b c h k. ground arith;
}

abbrev by_hash : Entry → Entry → Bool
by_hash a b = ltb a.0 b.0

by_hash-IsStrictWeak : IsStrictWeak by_hash
by_hash-IsStrictWeak = record {
  asymmetric = λ a b h. ground arith;
  not_less_trans = λ a b c h k. ground arith;
}

IsRising-of_ascending : (arr : List Entry) → IsAscending by_hash arr → IsRising arr
IsRising-of_ascending [] h = tt
IsRising-of_ascending (a ∷ rest) h =
    (λ b m. let q = h.0 b m in ground (arith, q), IsRising-of_ascending rest h.1)

module _ (sha256 : Bytes → ℕ) (range : ℕ) where
  mem-hashes_from :
      (xs : List Bytes) (k i : ℕ)
      → i < length xs
      → Memᴰ (hash sha256 range (get_or xs i []), k + i) (hashes_from sha256 range k xs)
  unfolding hashes_from
  mem-hashes_from [] k i h = elim h [ ]
  mem-hashes_from (x ∷ xs) k zero h = head (ap (λ (n : ℕ). (hash sha256 range x, n)) (omega arith))
  mem-hashes_from (x ∷ xs) k (suc i) h =
      let e : k + suc i ≡ k + 1 + i = omega arith in
      rw e (tail (mem-hashes_from xs (k + 1) i (omega arith)))

  mem_of_hashes_from :
      (xs : List Bytes) (k v n : ℕ)
      → Memᴰ (v, n) (hashes_from sha256 range k xs)
      → (i : ℕ) × (n ≡ k + i) × (i < length xs) × (v ≡ hash sha256 range (get_or xs i []))
  unfolding hashes_from
  mem_of_hashes_from [] k v n m = elim m [ ]
  mem_of_hashes_from (x ∷ xs) k v n (head e) =
      (0, ap (λ (p : Entry). p.1) e ∙ omega arith, omega arith, ap (λ (p : Entry). p.0) e)
  mem_of_hashes_from (x ∷ xs) k v n (tail m) =
      let (i, e, h, same) = mem_of_hashes_from xs (k + 1) v n m in
      (suc i, omega arith, omega arith, same)

module _ (sha256 : Bytes → ℕ) (d : Doubles) where
  -- The conversions of `GCS::Create` are defined: the range is an `int64_t` that is not 0, and so is
  -- `div`, which is below 64.
  pub record IsDefined (fpr : d.Double) (num_client_inputs : ℤ) (elements : List Bytes)
      : Type 0 where
    pub range : ℕ
    pub range_is : d.range_of (larger num_client_inputs (length elements)) fpr ≡ some range
    pub range_ne : 0 < range
    pub div : ℕ
    pub div_is : div_of d.estimate_div (sort ltb (map (hash sha256 range) elements)) none ≡ some div
    pub div_below : div < 64

  -- From a rate inside the unit interval, where the conversions are defined, the set is made with a
  -- `div` below 64, its intersection with any elements ends, and the result holds exactly the indexes
  -- whose element has the hash of an element of the set.
  pub create-intersect :
      (fpr : d.Double) (num_client_inputs : ℤ) (elements : List Bytes)
      → (d.le_zero fpr || d.ge_one fpr) ≡ false
      → IsDefined fpr num_client_inputs elements
      → (g : Gcs) × (create sha256 d fpr num_client_inputs elements ≡ some (ok g))
        × (g.gcs_div < 64)
        × ((xs : List Bytes)
            → (found : List ℕ) × (intersect sha256 g xs ≡ some found)
              × ((i : ℕ)
                  → Memᴰ i found ↔ (
                      (i < length xs)
                      × ((e : Bytes) × Memᴰ e elements
                          × (hash sha256 g.hash_range (get_or xs i [])
                              ≡ hash sha256 g.hash_range e)))))
  unfolding create intersect compress_with
  create-intersect fpr n elements inside o =
      let range = o.range in
      let hashes = map (hash sha256 range) elements in
      let vals = sort ltb hashes in
      let c = compress_with o.div vals in
      let made =
        golomb_compress-compress_with d.estimate_div vals none o.div o.div_is o.div_below in
      (
        record { golomb = c.compressed; gcs_div = c.div; hash_range = range },
        rw (inside, o.range_is, made, create) refl,
        o.div_below,
        λ xs.
            let pairs = hashes_from sha256 range 0 xs in
            let arr = sort by_hash pairs in
            let (c', made', found, ran, holds) =
              golomb_intersect-golomb_compress d.estimate_div vals none o.div arr o.div_is
                o.div_below (sort-IsAscending ltb ltb-IsStrictWeak hashes)
                (IsRising-of_ascending arr (sort-IsAscending by_hash by_hash-IsStrictWeak pairs)) in
            let same : c' ≡ c = cc (made, made') in
            (
              found,
              subst (λ (k : GolombCompressed). golomb_intersect k.compressed k.div arr ≡ some found)
                  same ran,
              λ i. (
                λ m.
                    let (v, here, there) = (holds i).0 m in
                    let (j, same, q, e) =
                      mem_of_hashes_from sha256 range xs 0 v i
                        ((mem-sort by_hash (v, i) pairs).0 here) in
                    let (x, n, e') =
                      mem_of_map (hash sha256 range) v elements ((mem-sort ltb v hashes).0 there) in
                    let at_j : i ≡ j = omega arith in
                    (
                      subst (λ (k : ℕ). k < length xs) (sym at_j) q,
                      (
                        x,
                        n,
                        subst (λ (k : ℕ). hash sha256 range (get_or xs k []) ≡ hash sha256 range x)
                            (sym at_j) (sym e ∙ e'),
                      ),
                    ),
                λ (q, (x, n, same)).
                    let v = hash sha256 range (get_or xs i []) in
                    let here : Memᴰ (v, i) pairs =
                      subst (λ (k : ℕ). Memᴰ (v, k) pairs) (omega arith)
                        (mem-hashes_from sha256 range xs 0 i q) in
                    let there : Memᴰ v hashes =
                      rw same (mem-map (hash sha256 range) x elements n) in
                    (holds i).1
                      (v, (mem-sort by_hash (v, i) pairs).1 here, (mem-sort ltb v hashes).1 there),
              ),
            ),
      )
