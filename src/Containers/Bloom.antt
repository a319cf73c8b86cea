-- ===== src/Containers/Bloom.antt =====
-- `BloomFilter` of private_set_intersection/cpp/datastructure/bloom_filter.cpp. The SHA-256 digest of
-- a string, as a big number, is the parameter `sha256`; what it computes on `double` is a parameter record.
-- `int64_t` arithmetic is taken not to overflow, and a filter has at least one byte where it is hashed
-- into.
pub mod Membership
pub mod Found
use open_mined_psi.Base.{
  ℕ, zero, suc, ◌+◌, ◌*◌, ◌/◌, ◌%◌, ◌^◌, Bool, true, false, not, ◌&&◌, ◌||◌, Bytes, List, [], ◌∷◌,
  ◌++◌, map, length, get_or, set, replicate, push_back, max, ◌==◌, if◌then◌else◌,
}
use open_mined_psi.Base.Integer.{ℤ, pos, negsuc, larger}
use open_mined_psi.Containers.Doubles.{Doubles}
use open_mined_psi.Base.Bits.{bit, set_bit}
use open_mined_psi.Status.{
  fpr_not_in_unit_interval, max_elements_negative, setup_corrupt, invalid_argument, Result, ok, err,
}

pub record BloomFilter : Type 0 where
  pub num_hash_functions : ℕ
  pub bits : Bytes

unfoldable pub create_empty : (d : Doubles) → d.Double → ℤ → Result BloomFilter
create_empty d fpr max_elements =
    if d.le_zero fpr || d.ge_one fpr
    then err (invalid_argument fpr_not_in_unit_interval)
    else elim max_elements [
      | negsuc _ ↦ err (invalid_argument max_elements_negative)
      | pos n ↦ ok (record {
        num_hash_functions = d.hash_functions fpr;
        bits = replicate (d.filter_bytes fpr n) 0;
      })
    ]

-- `bits_[index / 8] |= (1 << (index % 8))`
unfoldable pub set_index : Bytes → ℕ → Bytes
set_index bits index = set bits (index / 8) (set_bit (index % 8) (get_or bits (index / 8) 0))

unfoldable pub set_indices : Bytes → List ℕ → Bytes
set_indices bits [] = bits
set_indices bits (index ∷ rest) = set_indices (set_index bits index) rest

-- `(bits_[index / 8] >> (index % 8)) & 1`
unfoldable pub check_index : Bytes → ℕ → Bool
check_index bits index = bit (index % 8) (get_or bits (index / 8) 0) == 1

unfoldable pub check_indices : Bytes → Bool → List ℕ → Bool
check_indices bits result [] = result
check_indices bits result (index ∷ rest) =
    check_indices bits (result && check_index bits index) rest

module _ (sha256 : Bytes → ℕ) where
  -- The i-th hash is SHA256(1 || x) + i * SHA256(2 || x) modulo the number of bits; `absl::StrCat`
  -- writes the 1 and the 2 as digits.
  unfoldable pub hash_from : ℕ → ℕ → ℕ → ℕ → ℕ → List ℕ
  hash_from h1 h2 num_bits i zero = []
  hash_from h1 h2 num_bits i (suc k) = (h1 + i * h2) % num_bits ∷ hash_from h1 h2 num_bits (i + 1) k

  unfoldable pub hash : BloomFilter → Bytes → List ℕ
  hash f x =
      let num_bits = 8 * length f.bits in
      hash_from (sha256 (b'1' ∷ x) % num_bits) (sha256 (b'2' ∷ x) % num_bits) num_bits 0
        f.num_hash_functions

  unfoldable pub add : BloomFilter → List Bytes → BloomFilter
  add f [] = f
  add f (x ∷ xs) = add (record f { bits = set_indices f.bits (hash f x) }) xs

  unfoldable pub check : BloomFilter → Bytes → Bool
  check f x = check_indices f.bits true (hash f x)

  unfoldable pub intersect_from : BloomFilter → ℕ → List Bytes → List ℕ → List ℕ
  intersect_from f i [] res = res
  intersect_from f i (x ∷ xs) res =
      intersect_from f (i + 1) xs (if check f x then push_back res i else res)

  unfoldable pub intersect : BloomFilter → List Bytes → List ℕ
  intersect f elements = intersect_from f 0 elements []

  unfoldable pub create : (d : Doubles) → d.Double → ℤ → List Bytes → Result BloomFilter
  create d fpr num_client_inputs elements =
      elim (create_empty d fpr (pos (larger num_client_inputs (length elements)))) [
        | err e ↦ err e
        | ok f ↦ ok (add f elements)
      ]
