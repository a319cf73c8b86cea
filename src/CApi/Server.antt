-- ===== src/CApi/Server.antt =====
-- private_set_intersection/c/psi_server.cpp. A context is the server that it points to, `none` for a
-- null pointer; a buffer is its bytes.
use open_mined_psi.Base.{ℕ, Bool, Bytes, List, Option, none, some}
use open_mined_psi.Status.{
  invalid_server_context, setup_unserialized, response_unserialized, request_unparsed, Error,
  invalid_argument, Result, ok, err,
}
use open_mined_psi.Base.Integer.{ℤ}
use open_mined_psi.Containers.Doubles.{Doubles}
use open_mined_psi.Protocol.{ServerSetup, Request, ServerResponse, Cipher}
use open_mined_psi.Protocol.Server.{
  PsiServer, create_server, Choice, create_setup_message, process_request, get_private_key_bytes,
}
use open_mined_psi.CApi.{Ran, returned, starved, Caller, Codec, generate_error, emit, emit_key}

abbrev pub ServerContext : Type 0
ServerContext = Option PsiServer

unfoldable pub psi_server_delete : ServerContext → ServerContext
psi_server_delete none = none
psi_server_delete (some server) = none

module _ (message : Error → Bytes) (malloc : ℕ → Option Bytes) where
  -- `psi_server_create_with_new_key` and `psi_server_create_from_key`, by what the cipher library
  -- returned; `*ctx` is `*output`.
  unfoldable pub psi_server_create :
      Result Cipher → Bool → Caller PsiServer → Ran (Caller PsiServer)
  psi_server_create cipher reveal c = elim (create_server cipher reveal) [
    | ok server ↦ returned 0 (record c { output = some server })
    | err e ↦ generate_error message malloc e c
  ]

  module _ (sha256 : Bytes → ℕ) (d : Doubles) (order : List Bytes → List ℕ) where
    -- Without a permutation for the caller.
    unfoldable pub psi_server_create_setup_message :
        Codec ServerSetup
        → ServerContext
        → d.Double
        → ℤ
        → List Bytes
        → Choice
        → Caller Bytes
        → Ran (Caller Bytes)
    psi_server_create_setup_message codec none fpr num_client_inputs inputs ds c =
        generate_error message malloc (invalid_argument invalid_server_context) c
    psi_server_create_setup_message codec (some server) fpr num_client_inputs inputs ds c =
        elim (create_setup_message sha256 d order server fpr num_client_inputs inputs ds) [
          | none ↦ starved
          | some r ↦ elim r [
            | err e ↦ generate_error message malloc e c
            | ok (setup, permutation) ↦ emit message malloc codec setup_unserialized setup c
          ]
        ]

  unfoldable pub psi_server_process_request :
      Codec Request
      → Codec ServerResponse
      → ServerContext
      → Bytes
      → Caller Bytes
      → Ran (Caller Bytes)
  psi_server_process_request requests responses none client_request c =
      generate_error message malloc (invalid_argument invalid_server_context) c
  psi_server_process_request requests responses (some server) client_request c =
      elim (requests.parse client_request) [
        | none ↦ generate_error message malloc (invalid_argument request_unparsed) c
        | some request ↦ elim (process_request server request) [
          | err e ↦ generate_error message malloc e c
          | ok response ↦ emit message malloc responses response_unserialized response c
        ]
      ]

  unfoldable pub psi_server_get_private_key_bytes :
      ServerContext → Caller Bytes → Ran (Caller Bytes)
  psi_server_get_private_key_bytes none c =
      generate_error message malloc (invalid_argument invalid_server_context) c
  psi_server_get_private_key_bytes (some server) c =
      emit_key message malloc (get_private_key_bytes server.ec_cipher) c
