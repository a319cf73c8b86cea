-- ===== src/Containers/Gcs.antt =====
-- `GCS` of private_set_intersection/cpp/datastructure/gcs.cpp. The SHA-256 digest of a string, as a big
-- number, is the parameter `sha256`; what is computed on `double` is a parameter record. `std::sort`
-- by hash alone leaves the order of equal hashes open; here it is that of the elements.
pub mod Found
use open_mined_psi.Base.{
  ℕ, ◌+◌, ◌%◌, max, Bool, ◌||◌, Bytes, List, [], ◌∷◌, map, Option, none, some, length, ltb,
  if◌then◌else◌,
}
use open_mined_psi.Base.Integer.{ℤ, larger}
use open_mined_psi.Containers.Doubles.{Doubles}
use open_mined_psi.Base.Sort.{sort}
use open_mined_psi.Status.{fpr_not_in_unit_interval, invalid_argument, Result, ok, err}
use open_mined_psi.Containers.Golomb.{golomb_compress, golomb_intersect}

pub record Gcs : Type 0 where
  pub golomb : Bytes
  pub gcs_div : ℕ
  pub hash_range : ℕ

module _ (sha256 : Bytes → ℕ) where
  unfoldable pub hash : ℕ → Bytes → ℕ
  hash hash_range input = sha256 input % hash_range

  -- `none` where the code is undefined: the conversion of the range, or the compression.
  unfoldable pub create : (d : Doubles) → d.Double → ℤ → List Bytes → Option (Result Gcs)
  create d fpr num_client_inputs elements =
      if d.le_zero fpr || d.ge_one fpr
      then some (err (invalid_argument fpr_not_in_unit_interval))
      else elim (d.range_of (larger num_client_inputs (length elements)) fpr) [
        | none ↦ none
        | some hash_range ↦
            elim (golomb_compress d.estimate_div (sort ltb (map (hash hash_range) elements)) none) [
              | none ↦ none
              | some compressed ↦ some (
                  ok (record {
                    golomb = compressed.compressed;
                    gcs_div = compressed.div;
                    hash_range = hash_range;
                  }))
            ]
      ]

  -- `hashes` before the sort, from element number `i`.
  unfoldable pub hashes_from : ℕ → ℕ → List Bytes → List (ℕ × ℕ)
  hashes_from hash_range i [] = []
  hashes_from hash_range i (x ∷ xs) = (hash hash_range x, i) ∷ hashes_from hash_range (i + 1) xs

  unfoldable pub intersect : Gcs → List Bytes → Option (List ℕ)
  intersect g elements =
      golomb_intersect g.golomb g.gcs_div
        (sort (λ (a b : ℕ × ℕ). ltb a.0 b.0) (hashes_from g.hash_range 0 elements))
