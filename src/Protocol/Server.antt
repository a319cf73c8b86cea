-- ===== src/Protocol/Server.antt =====
-- `PsiServer` of private_set_intersection/cpp/psi_server.cpp, in the build without threads and apart
-- from its progress slot. `none` is a loop that ran out of fuel, or a conversion that is undefined.
use open_mined_psi.Base.{
  ℕ, Bool, true, false, not, Bytes, List, [], Option, none, some, if◌then◌else◌, ◌-◌, ◌++◌, length,
  replicate,
}
use open_mined_psi.Base.Order.{str_ltb}
use open_mined_psi.Base.Sort.{sort}
use open_mined_psi.Status.{
  impossible, request_corrupt, reveal_mismatch, invalid_argument, Result, ok, err,
}
use open_mined_psi.Parallel.{transform_single}
use open_mined_psi.Containers.Raw
use open_mined_psi.Containers.Gcs
use open_mined_psi.Base.Integer.{ℤ}
use open_mined_psi.Containers.Bloom
use open_mined_psi.Containers.Doubles.{Doubles}
use open_mined_psi.Protocol.Messages.{raw_to_protobuf, gcs_to_protobuf, bloom_filter_to_protobuf}
use open_mined_psi.Protocol.{ServerSetup, Request, ServerResponse, Cipher}

pub record PsiServer : Type 0 where
  pub ec_cipher : Cipher
  pub reveal_intersection : Bool

-- `cipher` is what `ECCommutativeCipher::CreateWithNewKey` or `CreateFromKey` returned.
unfoldable pub create_server : Result Cipher → Bool → Result PsiServer
create_server (err e) reveal = err e
create_server (ok cipher) reveal = ok (record { ec_cipher = cipher; reveal_intersection = reveal })

-- The parameter `ds`, an `enum`, which can hold values that have no name.
pub data Choice : Type 0 where
  choose_gcs choose_bloom_filter choose_raw choose_unnamed : Choice

-- `order` is what `std::sort` makes of the indexes of a list. The permutation given back is that of `Raw`.
module _ (sha256 : Bytes → ℕ) (d : Doubles) (order : List Bytes → List ℕ) where
  -- The `switch` on `ds`.
  unfoldable pub build : Choice → d.Double → ℤ → List Bytes → Option (Result (ServerSetup × List ℕ))
  build choose_gcs corrected_fpr num_client_inputs encrypted =
      elim (Gcs.create sha256 d corrected_fpr num_client_inputs encrypted) [
        | none ↦ none
        | some r ↦ elim r [ err e ↦ some (err e) | ok g ↦ some (ok (gcs_to_protobuf g, [])) ]
      ]
  build choose_bloom_filter corrected_fpr num_client_inputs encrypted =
      elim (Bloom.create sha256 d corrected_fpr num_client_inputs encrypted) [
        | err e ↦ some (err e)
        | ok f ↦ some (ok (bloom_filter_to_protobuf f, []))
      ]
  build choose_raw corrected_fpr num_client_inputs encrypted =
      elim (Raw.create (order encrypted) encrypted) [
        | none ↦ none
        | some sorted ↦ some (ok (raw_to_protobuf sorted, order encrypted))
      ]
  build choose_unnamed corrected_fpr num_client_inputs encrypted =
      some (err (invalid_argument impossible))

  unfoldable pub create_setup_message :
      PsiServer → d.Double → ℤ → List Bytes → Choice → Option (Result (ServerSetup × List ℕ))
  create_setup_message s fpr num_client_inputs inputs ds =
      let corrected_fpr = d.divide fpr num_client_inputs in
      elim (transform_single s.ec_cipher.encrypt inputs) [
        | err e ↦ some (err e)
        | ok encrypted ↦ build ds corrected_fpr num_client_inputs encrypted
      ]

-- `a != b` on `bool`
abbrev differs : Bool → Bool → Bool
differs true b = not b
differs false b = b

unfoldable pub process_request : PsiServer → Request → Result ServerResponse
process_request s request =
    if not request.request_initialized
    then err (invalid_argument request_corrupt)
    else if differs request.request_reveal s.reveal_intersection
    then err (invalid_argument (reveal_mismatch request.request_reveal s.reveal_intersection))
    else elim (transform_single s.ec_cipher.re_encrypt request.request_elements) [
      | err e ↦ err e
      | ok elements ↦ ok (record {
        response_initialized = true;
        response_elements = if not s.reveal_intersection then sort str_ltb elements else elements;
      })
    ]

-- `key.insert(key.begin(), 32 - key.length(), '\0')`, for a key of at most 32 bytes
unfoldable pub get_private_key_bytes : Cipher → Bytes
get_private_key_bytes cipher = replicate (32 - length cipher.private_key) 0 ++ cipher.private_key
