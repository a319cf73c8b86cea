-- ===== src/Node/Client.antt =====
-- `PsiClientWrap` of private_set_intersection/napi/psi_napi.cpp.
use open_mined_psi.Base.{ℕ, Bool, Bytes, List, Option, none, some}
use open_mined_psi.Status.{
  setup_unparsed, response_unparsed, Error, invalid_argument, Result, ok, err,
}
use open_mined_psi.Match.Session.{PsiMatch}
use open_mined_psi.Protocol.{ServerSetup, Request, ServerResponse, Cipher}
use open_mined_psi.Protocol.Client.{
  PsiClient, create_client, create_request, get_intersection, get_intersection_size,
  get_association, create_match, get_private_key_bytes,
}
use open_mined_psi.JavaScript.{JsObject, Message}
use open_mined_psi.Node.{
  Answer, returned, starved, has_been_deleted, make_ok, make_error, wrap, serialized_ok,
  parse_from_array,
}

-- `client_`; `none` is a null pointer.
abbrev pub PsiClientWrap : Type 0
PsiClientWrap = Option PsiClient

unfoldable pub node_client_delete : PsiClientWrap → PsiClientWrap
node_client_delete self = none

-- Both messages, or the refusal for the first that does not parse.
unfoldable pub parse_setup_and_response :
    Message ServerSetup
    → Message ServerResponse
    → Bytes
    → Bytes
    → Result (ServerSetup × ServerResponse)
parse_setup_and_response setups responses setup_bytes response_bytes =
    elim (parse_from_array setups setup_bytes) [
      | none ↦ err (invalid_argument setup_unparsed)
      | some setup ↦ elim (parse_from_array responses response_bytes) [
        | none ↦ err (invalid_argument response_unparsed)
        | some response ↦ ok (setup, response)
      ]
    ]

module _ (message : Error → Bytes) where
  -- `CreateWithNewKey` and `CreateFromKey`, by what the cipher library returned.
  unfoldable pub node_create_client : Result Cipher → Bool → JsObject PsiClient
  node_create_client cipher reveal = wrap message (create_client cipher reveal)

  unfoldable pub node_create_request :
      Message Request → PsiClientWrap → List Bytes → Answer (JsObject Bytes)
  node_create_request requests none inputs = has_been_deleted
  node_create_request requests (some client) inputs = elim (create_request client inputs) [
    | err e ↦ returned (make_error message e)
    | ok request ↦ returned (serialized_ok message requests request)
  ]

  unfoldable pub node_create_match :
      (Bytes → Result Cipher) → PsiClientWrap → Answer (JsObject (Cipher × PsiMatch))
  node_create_match create_from_key none = has_been_deleted
  node_create_match create_from_key (some client) =
      returned (wrap message (create_match create_from_key client))

  module _ (sha256 : Bytes → ℕ) (order : List Bytes → List ℕ) (setups : Message ServerSetup)
      (responses : Message ServerResponse) where
    unfoldable pub node_get_intersection :
        PsiClientWrap → Bytes → Bytes → Answer (JsObject (List ℕ))
    node_get_intersection none setup_bytes response_bytes = has_been_deleted
    node_get_intersection (some client) setup_bytes response_bytes =
        elim (parse_setup_and_response setups responses setup_bytes response_bytes) [
          | err e ↦ returned (make_error message e)
          | ok (setup, response) ↦ elim (get_intersection sha256 client setup response) [
            | none ↦ starved
            | some (err e) ↦ returned (make_error message e)
            | some (ok intersection) ↦ returned (make_ok intersection)
          ]
        ]

    -- The array of two arrays.
    unfoldable pub node_get_association_table :
        PsiClientWrap → Bytes → Bytes → Answer (JsObject (List ℕ × List ℕ))
    node_get_association_table none setup_bytes response_bytes = has_been_deleted
    node_get_association_table (some client) setup_bytes response_bytes =
        elim (parse_setup_and_response setups responses setup_bytes response_bytes) [
          | err e ↦ returned (make_error message e)
          | ok (setup, response) ↦ elim (get_association order client setup response) [
            | none ↦ starved
            | some (err e) ↦ returned (make_error message e)
            | some (ok t) ↦ returned (make_ok (t.decrypted_permutation, t.encrypted_permutation))
          ]
        ]

    unfoldable pub node_get_intersection_size : PsiClientWrap → Bytes → Bytes → Answer (JsObject ℕ)
    node_get_intersection_size none setup_bytes response_bytes = has_been_deleted
    node_get_intersection_size (some client) setup_bytes response_bytes =
        elim (parse_setup_and_response setups responses setup_bytes response_bytes) [
          | err e ↦ returned (make_error message e)
          | ok (setup, response) ↦ elim (get_intersection_size sha256 client setup response) [
            | none ↦ starved
            | some (err e) ↦ returned (make_error message e)
            | some (ok size) ↦ returned (make_ok size)
          ]
        ]

unfoldable pub node_client_private_key_bytes : PsiClientWrap → Answer Bytes
node_client_private_key_bytes none = has_been_deleted
node_client_private_key_bytes (some client) = returned (get_private_key_bytes client.ec_cipher)
