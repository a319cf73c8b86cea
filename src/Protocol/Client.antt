-- ===== src/Protocol/Client.antt =====
-- `PsiClient` of private_set_intersection/cpp/psi_client.cpp, in the build without threads and apart
-- from its progress slot. `none` is a loop that ran out of fuel.
use open_mined_psi.Base.{
  ℕ, ◌-◌, Bool, true, not, Bytes, List, ◌++◌, Option, none, some, length, replicate, if◌then◌else◌,
}
use open_mined_psi.Status.{
  setup_corrupt, response_corrupt, intersection_not_revealed, association_not_revealed,
  association_only_for_raw, impossible, invalid_argument, Result, ok, err,
}
use open_mined_psi.Parallel.{transform_single}
use open_mined_psi.Containers.Raw
use open_mined_psi.Containers.Gcs
use open_mined_psi.Containers.Bloom
use open_mined_psi.Containers.Association.{Table, get_association_table}
use open_mined_psi.Match.Session.{PsiMatch, create}
use open_mined_psi.Protocol.Messages.{
  raw_from_protobuf, gcs_from_protobuf, bloom_filter_from_protobuf,
}
use open_mined_psi.Protocol.{
  raw, gcs, bloom_filter, not_set, ServerSetup, Request, ServerResponse, Cipher,
}

pub record PsiClient : Type 0 where
  pub ec_cipher : Cipher
  pub reveal_intersection : Bool

-- `cipher` is what `ECCommutativeCipher::CreateWithNewKey` or `CreateFromKey` returned.
unfoldable pub create_client : Result Cipher → Bool → Result PsiClient
create_client (err e) reveal = err e
create_client (ok cipher) reveal = ok (record { ec_cipher = cipher; reveal_intersection = reveal })

unfoldable pub create_request : PsiClient → List Bytes → Result Request
create_request c inputs = elim (transform_single c.ec_cipher.encrypt inputs) [
  | err e ↦ err e
  | ok encrypted ↦ ok (record {
    request_initialized = true;
    request_reveal = c.reveal_intersection;
    request_elements = encrypted;
  })
]

-- Both messages are checked before the response is decrypted.
unfoldable pub decrypt_response : PsiClient → ServerSetup → ServerResponse → Result (List Bytes)
decrypt_response c setup response =
    if not setup.setup_initialized
    then err (invalid_argument setup_corrupt)
    else if not response.response_initialized
    then err (invalid_argument response_corrupt)
    else transform_single c.ec_cipher.decrypt response.response_elements

module _ (sha256 : Bytes → ℕ) where
  unfoldable pub intersect_with : ServerSetup → List Bytes → Option (Result (List ℕ))
  intersect_with setup decrypted = elim setup.data_structure [
    | raw _ ↦ elim (raw_from_protobuf setup) [
      | err e ↦ some (err e)
      | ok encrypted ↦ some (ok (Raw.intersect encrypted decrypted))
    ]
    | gcs _ ↦ elim (gcs_from_protobuf setup) [
      | err e ↦ some (err e)
      | ok g ↦ elim (Gcs.intersect sha256 g decrypted) [ none ↦ none | some res ↦ some (ok res) ]
    ]
    | bloom_filter _ ↦ elim (bloom_filter_from_protobuf setup) [
      | err e ↦ some (err e)
      | ok f ↦ some (ok (Bloom.intersect sha256 f decrypted))
    ]
    | not_set ↦ some (err (invalid_argument impossible))
  ]

  unfoldable pub process_response :
      PsiClient → ServerSetup → ServerResponse → Option (Result (List ℕ))
  process_response c setup response = elim (decrypt_response c setup response) [
    | err e ↦ some (err e)
    | ok decrypted ↦ intersect_with setup decrypted
  ]

  unfoldable pub get_intersection :
      PsiClient → ServerSetup → ServerResponse → Option (Result (List ℕ))
  get_intersection c setup response =
      if not c.reveal_intersection
      then some (err (invalid_argument intersection_not_revealed))
      else process_response c setup response

  unfoldable pub get_intersection_size :
      PsiClient → ServerSetup → ServerResponse → Option (Result ℕ)
  get_intersection_size c setup response = elim (process_response c setup response) [
    | none ↦ none
    | some r ↦ elim r [ err e ↦ some (err e) | ok res ↦ some (ok (length res)) ]
  ]

-- `order` is what `std::sort` makes of the indexes of a list.
unfoldable pub associate_with :
    (List Bytes → List ℕ) → ServerSetup → List Bytes → Option (Result Table)
associate_with order setup decrypted = elim setup.data_structure [
  | raw _ ↦ elim (raw_from_protobuf setup) [
    | err e ↦ some (err e)
    | ok encrypted ↦ elim (get_association_table (order decrypted) encrypted decrypted) [
      | none ↦ none
      | some t ↦ some (ok t)
    ]
  ]
  | gcs _ ↦ some (err (invalid_argument association_only_for_raw))
  | bloom_filter _ ↦ some (err (invalid_argument association_only_for_raw))
  | not_set ↦ some (err (invalid_argument impossible))
]

unfoldable pub process_association :
    (List Bytes → List ℕ) → PsiClient → ServerSetup → ServerResponse → Option (Result Table)
process_association order c setup response = elim (decrypt_response c setup response) [
  | err e ↦ some (err e)
  | ok decrypted ↦ associate_with order setup decrypted
]

unfoldable pub get_association :
    (List Bytes → List ℕ) → PsiClient → ServerSetup → ServerResponse → Option (Result Table)
get_association order c setup response =
    if not c.reveal_intersection
    then some (err (invalid_argument association_not_revealed))
    else process_association order c setup response

-- `PsiMatch::Create` with the client's key, over `ECCommutativeCipher::CreateFromKey`: the cipher of the
-- match and its other members.
unfoldable pub create_match : (Bytes → Result Cipher) → PsiClient → Result (Cipher × PsiMatch)
create_match create_from_key c = elim (create_from_key c.ec_cipher.private_key) [
  | err e ↦ err e
  | ok cipher ↦ ok (cipher, create c.reveal_intersection)
]

-- `key.insert(key.begin(), 32 - key.length(), '\0')`, for a key of at most 32 bytes
unfoldable pub get_private_key_bytes : Cipher → Bytes
get_private_key_bytes cipher = replicate (32 - length cipher.private_key) 0 ++ cipher.private_key
