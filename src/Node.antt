-- ===== src/Node.antt =====
-- The binding to Node, private_set_intersection/napi/psi_napi.cpp: what its classes share. An N-API value
-- is what it holds and a JavaScript number its value; the numbers are below 2^53, which a double holds
-- exactly. The objects and the protobuf library are those of the binding to JavaScript. Progress slots
-- are left out.
pub mod Server
pub mod Client
pub mod Match
pub mod Whole
pub mod Getters
pub mod Agreement
pub mod Exclusive
use open_mined_psi.Base.{Bool, true, false, Bytes, Option, none, some}
use open_mined_psi.Status.{not_uint8_array, Error, invalid_argument, Result, ok, err, Status}
use open_mined_psi.JavaScript.{JsObject, JsStatus, js_status, Message}

-- What a method does: it returns, it throws in `ThrowIfDeleted`, or a loop of the core ran out of fuel.
pub data Answer {ℓ} (A : Type ℓ) : Type ℓ where
  returned : A → Answer A
  has_been_deleted : Answer A
  starved : Answer A

-- An argument, by `IsTypedArray` and `TypedArrayType`.
pub data Argument : Type 0 where
  uint8_array : Bytes → Argument
  another_value : Argument

unfoldable pub byte_view : Argument → Result Bytes
byte_view (uint8_array bytes) = ok bytes
byte_view another_value = err (invalid_argument not_uint8_array)

unfoldable pub make_ok {ℓ} : {A : Type ℓ} → A → JsObject A
make_ok a = record { value = some a; status = none }

module _ (message : Error → Bytes) where
  unfoldable pub make_error {ℓ} : {A : Type ℓ} → Error → JsObject A
  make_error e = record { value = none; status = some (js_status message e) }

  -- `MakeOk` of null, or `MakeError`.
  unfoldable pub status_only {ℓ} : {A : Type ℓ} → Status → JsObject A
  status_only (ok _) = record { value = none; status = none }
  status_only (err e) = make_error e

  -- `Wrap`: the object with a new instance.
  unfoldable pub wrap {ℓ} : {I : Type ℓ} → Result I → JsObject I
  wrap (err e) = make_error e
  wrap (ok instance') = make_ok instance'

  unfoldable pub serialized_ok {ℓ} : {M : Type ℓ} → Message M → M → JsObject Bytes
  serialized_ok codec m = make_ok (codec.written m)

-- `ParseFromArray`: the message, unless its answer is no. The number of bytes is an `int`, so that there
-- are fewer than 2^31.
unfoldable pub parse_from_array {ℓ} : {M : Type ℓ} → Message M → Bytes → Option M
parse_from_array codec bytes = elim (codec.parse_from_string bytes).0 [
  | true ↦ some (codec.parse_from_string bytes).1
  | false ↦ none
]
