-- ===== src/CApi.antt =====
-- The C interface, private_set_intersection/c/: what its functions share, with `generate_error` of
-- c/internal_utils.cpp. `malloc`, the protobuf library and the texts of the messages are parameters. A
-- function returns its code beside the caller's variables, as it leaves them.
pub mod Client
pub mod Server
pub mod Codes
pub mod Run
use open_mined_psi.Base.{
  ℕ, zero, suc, ◌+◌, Bytes, List, [], ◌∷◌, Option, none, some, length, replicate, ◌==◌, Bool, true,
  false,
}
use open_mined_psi.Status.{Reason, allocation_failed, Error, invalid_argument, raw_code}

-- What a call does: it returns a code, it writes through a null pointer, or a loop of the core ran out
-- of fuel.
pub data Ran {ℓ} (C : Type ℓ) : Type ℓ where
  returned : ℕ → C → Ran C
  crashed : Ran C
  starved : Ran C

-- The caller's variables behind the out parameters: `*output`, where `none` is a null pointer,
-- `*out_len`, and `*error_out`, where `none` says that `error_out` itself is null.
pub record Caller {ℓ} (A : Type ℓ) : Type ℓ where
  pub output : Option A
  pub out_len : ℕ
  pub error_out : Option Bytes

-- A protobuf message type: `ByteSizeLong`, `SerializeToArray` and `ParseFromArray`. Both take the number
-- of bytes as an `int`, so that there are fewer than 2^31.
pub record Codec {ℓ} (M : Type ℓ) : Type ℓ where
  pub byte_size : M → ℕ
  pub serialize : M → Option Bytes
  pub parse : Bytes → Option M

-- `strncpy` of `n` bytes: up to the first zero, and zeros from there on.
unfoldable pub strncpy : ℕ → Bytes → Bytes
strncpy zero src = []
strncpy (suc n) [] = 0 ∷ replicate n 0
strncpy (suc n) (c ∷ src) = elim (c == 0) [ true ↦ 0 ∷ replicate n 0 | false ↦ c ∷ strncpy n src ]

module _ {ℓ} {A : Type ℓ} (message : Error → Bytes) (malloc : ℕ → Option Bytes) where
  -- The memory for the text is not checked.
  unfoldable pub generate_error : Error → Caller A → Ran (Caller A)
  generate_error e c = elim c.error_out [
    | none ↦ returned (raw_code e) c
    | some old ↦ elim (malloc (length (message e) + 1)) [
      | none ↦ crashed
      | some fresh ↦
          returned (raw_code e)
            (record c { error_out = some (strncpy (length (message e) + 1) (message e)) })
    ]
  ]

module _ (message : Error → Bytes) (malloc : ℕ → Option Bytes) where
  -- The end of the functions that return a message: memory for it, the message serialized, its size.
  unfoldable pub emit {ℓ} : {M : Type ℓ} → Codec M → Reason → M → Caller Bytes → Ran (Caller Bytes)
  emit codec unserialized proto c = elim (malloc (codec.byte_size proto)) [
    | none ↦
        generate_error message malloc (invalid_argument allocation_failed)
          (record c { output = none })
    | some fresh ↦ elim (codec.serialize proto) [
      | none ↦
          generate_error message malloc (invalid_argument unserialized)
            (record c { output = some fresh })
      | some bytes ↦ returned 0 (record c { output = some bytes; out_len = codec.byte_size proto })
    ]
  ]

  -- The end of the functions that return a key: the memory is not checked, and no byte is written for
  -- an empty key.
  unfoldable pub emit_key : Bytes → Caller Bytes → Ran (Caller Bytes)
  emit_key [] c = returned 0 (record c { output = malloc 0; out_len = 0 })
  emit_key (k ∷ key) c = elim (malloc (length (k ∷ key))) [
    | none ↦ crashed
    | some fresh ↦ returned 0 (record c { output = some (k ∷ key); out_len = length (k ∷ key) })
  ]
