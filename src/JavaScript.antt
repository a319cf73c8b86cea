-- ===== src/JavaScript.antt =====
-- The binding to JavaScript and WebAssembly, private_set_intersection/javascript/cpp/: what its files
-- share, utils.h. An embind value is what it holds, a JavaScript number its value, and an `int32_t` or
-- `uint32_t` its bit pattern. The texts of the messages and the protobuf library are parameters. Progress
-- pointers are left out.
pub mod Client
pub mod Server
pub mod Match
pub mod Windows
pub mod Whole
use open_mined_psi.Base.{ℕ, ◌%◌, ◌^◌, Bool, Bytes, Option, none, some}
use open_mined_psi.Status.{Error, Result, ok, err, raw_code}

pub record JsStatus : Type 0 where
  pub status_code : ℕ
  pub message : Bytes

-- An object with a `Value` and a `Status`; `none` is `null`.
pub record JsObject {ℓ} (A : Type ℓ) : Type ℓ where
  pub value : Option A
  pub status : Option JsStatus

-- A protobuf message type: the bytes that `SerializeToArray` leaves in an array of `ByteSizeLong` bytes,
-- and the answer of `ParseFromString` with the message that it leaves.
pub record Message {ℓ} (M : Type ℓ) : Type ℓ where
  pub written : M → Bytes
  pub parse_from_string : Bytes → Bool × M

-- `static_cast<int32_t>` as a bit pattern
abbrev pub to_int32 : ℕ → ℕ
to_int32 n = n % 2 ^ 32

module _ (message : Error → Bytes) where
  unfoldable pub js_status : Error → JsStatus
  js_status e = record { status_code = raw_code e; message = message e }

  unfoldable pub to_js_object {ℓ} : {A : Type ℓ} → Result A → JsObject A
  to_js_object (ok a) = record { value = some a; status = none }
  to_js_object (err e) = record { value = none; status = some (js_status e) }

  -- The `Value` is null whatever the status; `A` is what a failed call had to give.
  unfoldable pub to_js_status {ℓ κ} : {S : Type κ} {A : Type ℓ} → Result S → JsObject A
  to_js_status (ok _) = record { value = none; status = none }
  to_js_status (err e) = record { value = none; status = some (js_status e) }

  unfoldable pub to_serialized_js_object {ℓ} : {M : Type ℓ} → Message M → Result M → JsObject Bytes
  to_serialized_js_object codec (ok m) = record { value = some (codec.written m); status = none }
  to_serialized_js_object codec (err e) = record { value = none; status = some (js_status e) }
