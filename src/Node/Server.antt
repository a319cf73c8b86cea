-- ===== src/Node/Server.antt =====
-- `PsiServerWrap` of private_set_intersection/napi/psi_napi.cpp.
use open_mined_psi.Base.{ℕ, Bool, ◌&&◌, ◌==◌, Bytes, List, Option, none, some, if◌then◌else◌}
use open_mined_psi.Status.{request_unparsed, Error, invalid_argument, Result, ok, err}
use open_mined_psi.Base.Integer.{ℤ, to_uint32}
use open_mined_psi.Containers.Doubles.{Doubles}
use open_mined_psi.Protocol.{ServerSetup, Request, ServerResponse, Cipher}
use open_mined_psi.Protocol.Server.{
  PsiServer, Choice, choose_raw, choose_gcs, choose_bloom_filter, choose_unnamed, create_server,
  create_setup_message, process_request, get_private_key_bytes,
}
use open_mined_psi.JavaScript.{JsObject, Message}
use open_mined_psi.JavaScript.Server.{SetupObject, is_raw}
use open_mined_psi.Node.{
  Answer, returned, starved, has_been_deleted, make_error, wrap, serialized_ok, parse_from_array,
}

-- `server_`; `none` is a null pointer.
abbrev pub PsiServerWrap : Type 0
PsiServerWrap = Option PsiServer

unfoldable pub node_server_delete : PsiServerWrap → PsiServerWrap
node_server_delete self = none

-- `static_cast<DataStructure>` of `Int32Value`, which keeps the low 32 bits of an integer. Every number
-- but the three that have a name goes to the `default` of the `switch`, as compilers translate it.
unfoldable pub node_choice : ℤ → Choice
node_choice ds =
    let n = to_uint32 ds in
    if n == 0
    then choose_raw
    else if n == 1
    then choose_gcs
    else if n == 2
    then choose_bloom_filter
    else choose_unnamed

module _ (message : Error → Bytes) where
  -- `CreateWithNewKey` and `CreateFromKey`, by what the cipher library returned.
  unfoldable pub node_create_server : Result Cipher → Bool → JsObject PsiServer
  node_create_server cipher reveal = wrap message (create_server cipher reveal)

  module _ (sha256 : Bytes → ℕ) (d : Doubles) (order : List Bytes → List ℕ) where
    unfoldable pub node_create_setup_message :
        Message ServerSetup
        → PsiServerWrap
        → d.Double
        → ℤ
        → List Bytes
        → ℤ
        → Bool
        → Answer SetupObject
    node_create_setup_message setups none fpr num_client_inputs inputs ds include_permutation =
        has_been_deleted
    node_create_setup_message setups (some server) fpr num_client_inputs inputs ds
          include_permutation =
        elim (create_setup_message sha256 d order server fpr num_client_inputs inputs
          (node_choice ds)) [
            | none ↦ starved
            | some (err e) ↦ returned (record { object = make_error message e; permutation = none })
            | some (ok (setup, permutation)) ↦ returned (record {
              object = serialized_ok message setups setup;
              permutation =
                  if include_permutation && is_raw (node_choice ds) then some permutation else none;
            })
          ]

  unfoldable pub node_process_request :
      Message Request → Message ServerResponse → PsiServerWrap → Bytes → Answer (JsObject Bytes)
  node_process_request requests responses none client_request = has_been_deleted
  node_process_request requests responses (some server) client_request =
      elim (parse_from_array requests client_request) [
        | none ↦ returned (make_error message (invalid_argument request_unparsed))
        | some request ↦ elim (process_request server request) [
          | err e ↦ returned (make_error message e)
          | ok response ↦ returned (serialized_ok message responses response)
        ]
      ]

unfoldable pub node_server_private_key_bytes : PsiServerWrap → Answer Bytes
node_server_private_key_bytes none = has_been_deleted
node_server_private_key_bytes (some server) = returned (get_private_key_bytes server.ec_cipher)
