-- ===== src/Status.antt =====
-- `absl::Status` and `absl::StatusOr`: the codes and messages that the C++ core returns.
use open_mined_psi.Base.{ℕ, ◌+◌, ◌≡◌, refl, inl, inr, ◌⊎◌, Bool}

-- What the length of a varint belongs to, the `what` of `AddVarint32Byte`.
pub data What : Type 0 where
  element server_setup : What

-- The messages, one constructor for each text; `StrCat` arguments are fields.
pub data Reason : Type 0 where
  length_too_wide : What → Reason
  unexpected_field : Reason
  element_too_long : ℕ → Reason
  add_after_seal seal_twice : Reason
  not_single_raw element_past_end bytes_after_raw : Reason
  too_many_setup_elements not_strictly_ascending setup_incomplete : Reason
  match_before_seal match_after_finish too_many_response_elements : Reason
  finish_before_seal finish_twice response_inside_element : Reason
  fpr_not_in_unit_interval max_elements_negative : Reason
  setup_corrupt response_corrupt request_corrupt : Reason
  intersection_not_revealed association_not_revealed : Reason
  association_only_for_raw impossible : Reason
  reveal_mismatch : Bool → Bool → Reason
  shard_failed : Reason
  invalid_client_context invalid_server_context : Reason
  allocation_failed : Reason
  request_unserialized setup_unserialized response_unserialized : Reason
  setup_unparsed response_unparsed request_unparsed : Reason
  not_uint8_array : Reason

-- `foreign n` is a status of the cipher library with the raw code `n + 1`, passed on as it is.
pub data Error : Type 0 where
  invalid_argument failed_precondition resource_exhausted : Reason → Error
  foreign : ℕ → Error

-- `absl::Status::raw_code` of a refusal
unfoldable pub raw_code : Error → ℕ
raw_code (invalid_argument r) = 3
raw_code (failed_precondition r) = 9
raw_code (resource_exhausted r) = 8
raw_code (foreign n) = n + 1

pub data Result {ℓ} (A : Type ℓ) : Type ℓ where
  ok : A → Result A
  err : Error → Result A

-- `absl::Status`; `done` is `absl::OkStatus()`.
abbrev pub Status : Type 0
Status = Result (Unit {0})

abbrev pub done : Status
done = ok tt

pub Result-cases {ℓ} :
    {A : Type ℓ} (r : Result A) → ((a : A) × (r ≡ ok a)) ⊎ ((e : Error) × (r ≡ err e))
Result-cases (ok a) = inl (a, refl)
Result-cases (err e) = inr (e, refl)
