-- ===== src/CApi/Client.antt =====
-- private_set_intersection/c/psi_client.cpp. A context is the client that it points to, `none` for a
-- null pointer; a buffer is its bytes.
use open_mined_psi.Base.{
  ℕ, ◌*◌, Bool, true, false, Bytes, List, [], ◌∷◌, Option, none, some, length,
}
use open_mined_psi.Status.{
  invalid_client_context, request_unserialized, setup_unparsed, response_unparsed, Error,
  invalid_argument, Result, ok, err,
}
use open_mined_psi.Protocol.{ServerSetup, Request, ServerResponse, Cipher}
use open_mined_psi.Protocol.Client.{
  PsiClient, create_client, create_request, get_intersection, get_intersection_size,
  get_private_key_bytes,
}
use open_mined_psi.CApi.{
  Ran, returned, crashed, starved, Caller, Codec, generate_error, emit, emit_key,
}

abbrev pub ClientContext : Type 0
ClientContext = Option PsiClient

unfoldable pub psi_client_delete : ClientContext → ClientContext
psi_client_delete none = none
psi_client_delete (some client) = none

module _ (message : Error → Bytes) (malloc : ℕ → Option Bytes) where
  -- `psi_client_create_with_new_key` and `psi_client_create_from_key`, by what the cipher library
  -- returned; `*ctx` is `*output`.
  unfoldable pub psi_client_create :
      Result Cipher → Bool → Caller PsiClient → Ran (Caller PsiClient)
  psi_client_create cipher reveal c = elim (create_client cipher reveal) [
    | ok client ↦ returned 0 (record c { output = some client })
    | err e ↦ generate_error message malloc e c
  ]

  unfoldable pub psi_client_create_request :
      Codec Request → ClientContext → List Bytes → Caller Bytes → Ran (Caller Bytes)
  psi_client_create_request codec none inputs c =
      generate_error message malloc (invalid_argument invalid_client_context) c
  psi_client_create_request codec (some client) inputs c = elim (create_request client inputs) [
    | err e ↦ generate_error message malloc e c
    | ok request ↦ emit message malloc codec request_unserialized request c
  ]

  -- `psi_client_get_private_key_bytes`
  unfoldable pub psi_client_get_private_key_bytes :
      ClientContext → Caller Bytes → Ran (Caller Bytes)
  psi_client_get_private_key_bytes none c =
      generate_error message malloc (invalid_argument invalid_client_context) c
  psi_client_get_private_key_bytes (some client) c =
      emit_key message malloc (get_private_key_bytes client.ec_cipher) c

  module _ (sha256 : Bytes → ℕ) (setups : Codec ServerSetup)
      (responses : Codec ServerResponse) where
    -- What both functions on a setup and a response begin with: the context, then the two messages.
    unfoldable pub with_messages {ℓ} :
        {A : Type ℓ}
        → ClientContext
        → Bytes
        → Bytes
        → (PsiClient → ServerSetup → ServerResponse → Caller A → Ran (Caller A))
        → Caller A
        → Ran (Caller A)
    with_messages none server_setup server_response go c =
        generate_error message malloc (invalid_argument invalid_client_context) c
    with_messages (some client) server_setup server_response go c =
        elim (setups.parse server_setup) [
          | none ↦ generate_error message malloc (invalid_argument setup_unparsed) c
          | some setup ↦ elim (responses.parse server_response) [
            | none ↦ generate_error message malloc (invalid_argument response_unparsed) c
            | some response ↦ go client setup response c
          ]
        ]

    -- The result of the size; `*out` is `*output`, and is left alone if `out` is null.
    unfoldable pub psi_client_get_intersection_size :
        ClientContext → Bytes → Bytes → Bool → Caller ℕ → Ran (Caller ℕ)
    psi_client_get_intersection_size ctx server_setup server_response out c =
        with_messages ctx server_setup server_response
          (λ client setup response c'. elim (get_intersection_size sha256 client setup response) [
            | none ↦ starved
            | some r ↦ elim r [
              | err e ↦ generate_error message malloc e c'
              | ok size ↦ elim out [
                | true ↦ returned 0 (record c' { output = some size })
                | false ↦ returned 0 c'
              ]
            ]
          ])
          c

    -- The copy of the indexes, eight bytes each: the memory is not checked, and nothing is written for
    -- no index.
    unfoldable pub emit_indices : List ℕ → Caller (List ℕ) → Ran (Caller (List ℕ))
    emit_indices indices c = elim (malloc (length indices * 8)) [
      | some fresh ↦ returned 0 (record c { output = some indices; out_len = length indices })
      | none ↦ elim indices [
        | [] ↦ returned 0 (record c { output = none; out_len = 0 })
        | _ ∷ _ ↦ crashed
      ]
    ]

    unfoldable pub psi_client_get_intersection :
        ClientContext → Bytes → Bytes → Bool → Caller (List ℕ) → Ran (Caller (List ℕ))
    psi_client_get_intersection ctx server_setup server_response out c =
        with_messages ctx server_setup server_response
          (λ client setup response c'. elim (get_intersection sha256 client setup response) [
            | none ↦ starved
            | some r ↦ elim r [
              | err e ↦ generate_error message malloc e c'
              | ok indices ↦ elim out [ true ↦ emit_indices indices c' | false ↦ returned 0 c' ]
            ]
          ])
          c
