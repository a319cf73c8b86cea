-- ===== src/Containers/Doubles.antt =====
-- What the C++ core computes on `double`, in private_set_intersection/cpp/psi_server.cpp and
-- private_set_intersection/cpp/datastructure/.
use open_mined_psi.Base.{ℕ, Bool, Option}
use open_mined_psi.Base.Integer.{ℤ}

-- In psi_server.cpp `fpr / num_client_inputs`. In bloom_filter.cpp and gcs.cpp `fpr <= 0` and
-- `fpr >= 1`. In bloom_filter.cpp `ceil(-log2(fpr))` as an `int` and `ceil(-n * log2(fpr) / log(2) / 8)`
-- as an `int64_t`, which holds it for fewer than 2^54 elements. In gcs.cpp `max_elements / fpr` as an `int64_t`, and in golomb.cpp the formula for
-- `div` from the last value and the number of values; `none` is a value that an `int64_t` cannot hold,
-- whose conversion is undefined.
pub record Doubles : Type 1 where
  pub Double : Type 0
  pub divide : Double → ℤ → Double
  pub le_zero : Double → Bool
  pub ge_one : Double → Bool
  pub hash_functions : Double → ℕ
  pub filter_bytes : Double → ℕ → ℕ
  pub range_of : ℕ → Double → Option ℕ
  pub estimate_div : ℕ → ℕ → Option ℕ
