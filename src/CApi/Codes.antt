-- ===== src/CApi/Codes.antt =====
-- The codes of the C interface, private_set_intersection/c/, and what a call leaves in the caller's
-- variables.
use open_mined_psi.Base.{
  ℕ, ◌+◌, ◌≡◌, ◌≢◌, ◌⊎◌, refl, inl, inr, Bytes, List, Option, none, some, length, arith,
  Option-cases,
}
use open_mined_psi.Status.{
  Reason, Error, invalid_argument, failed_precondition, resource_exhausted, foreign, raw_code, ok,
  Result-cases,
}
use open_mined_psi.Protocol.{Request, ServerResponse}
use open_mined_psi.Protocol.Client.{create_request}
use open_mined_psi.Protocol.Server.{process_request}
use open_mined_psi.CApi.{
  Ran, returned, crashed, starved, Caller, Codec, strncpy, generate_error, emit,
}
use open_mined_psi.CApi.Client.{ClientContext, psi_client_create_request}
use open_mined_psi.CApi.Server.{ServerContext, psi_server_process_request}

raw_code_ne : (e : Error) → raw_code e ≢ 0
unfolding raw_code
raw_code_ne (invalid_argument r) h = omega arith
raw_code_ne (failed_precondition r) h = omega arith
raw_code_ne (resource_exhausted r) h = omega arith
raw_code_ne (foreign n) h = omega arith

-- The error text that the caller is left with: its own if it asked for none.
abbrev pub text_after : (Error → Bytes) → Error → Option Bytes → Option Bytes
text_after message e none = none
text_after message e (some old) = some (strncpy (length (message e) + 1) (message e))

-- A call that was refused with `e`: the code is that of `e` and not 0, the text is that of `e`, and the
-- size is as it was.
pub record Refused (message : Error → Bytes) (c : Caller Bytes) (code : ℕ) (c' : Caller Bytes)
    : Type 0 where
  pub error : Error
  pub code_is : code ≡ raw_code error
  pub code_ne : code ≢ 0
  pub text_is : c'.error_out ≡ text_after message error c.error_out
  pub size_kept : c'.out_len ≡ c.out_len

-- A call that sent a message for which `Made` holds: the code is 0, and the caller has the message
-- serialized, with its size, and no new text.
pub record Sent {M : Type 0} (codec : Codec M) (Made : M → Type 0) (c : Caller Bytes) (code : ℕ)
    (c' : Caller Bytes) : Type 0 where
  pub proto : M
  pub bytes : Bytes
  pub made : Made proto
  pub code_is : code ≡ 0
  pub serialized : codec.serialize proto ≡ some bytes
  pub caller_is : c' ≡ record c { output = some bytes; out_len = codec.byte_size proto }

-- The call returned, with one or the other; or it crashed, where the caller asked for the text of an
-- error and there was no memory for one.
abbrev pub IsAnswer :
    (Error → Bytes)
    → (ℕ → Option Bytes)
    → {M : Type 0} → Codec M
    → (M → Type 0)
    → Caller Bytes
    → Ran (Caller Bytes)
    → Type 0
IsAnswer message malloc codec Made c (returned code c') =
    Sent codec Made c code c' ⊎ Refused message c code c'
IsAnswer message malloc codec Made c crashed =
    (e : Error) × (old : Bytes) × (malloc (length (message e) + 1) ≡ none)
    × (c.error_out ≡ some old)
IsAnswer message malloc codec Made c starved = ⊥

module _ (message : Error → Bytes) (malloc : ℕ → Option Bytes) {M : Type 0} (codec : Codec M)
    (Made : M → Type 0) where
  generate_error-IsAnswer :
      (e : Error) (o : Option Bytes) (c : Caller Bytes)
      → IsAnswer message malloc codec Made c
          (generate_error message malloc e (record c { output = o }))
  unfolding generate_error
  generate_error-IsAnswer e o c = elim (Option-cases c.error_out) [
    | inl null ↦
        rw (null, generate_error)
          (inr (record {
            error = e;
            code_is = refl;
            code_ne = raw_code_ne e;
            text_is = rw null;
            size_kept = refl;
          }))
    | inr (old, wanted) ↦ elim (Option-cases (malloc (length (message e) + 1))) [
      | inl full ↦ rw (wanted, full, generate_error) (e, old, full, refl)
      | inr (fresh, given) ↦
          rw (wanted, given, generate_error)
            (inr (record {
              error = e;
              code_is = refl;
              code_ne = raw_code_ne e;
              text_is = refl;
              size_kept = refl;
            }))
    ]
  ]

  emit-IsAnswer :
      (unserialized : Reason) (proto : M) (c : Caller Bytes)
      → Made proto
      → IsAnswer message malloc codec Made c (emit message malloc codec unserialized proto c)
  unfolding emit
  emit-IsAnswer unserialized proto c made = elim (Option-cases (malloc (codec.byte_size proto))) [
    | inl full ↦ rw (full, emit) (generate_error-IsAnswer _ none c)
    | inr (fresh, given) ↦ elim (Option-cases (codec.serialize proto)) [
      | inl failed ↦ rw (given, failed, emit) (generate_error-IsAnswer _ (some fresh) c)
      | inr (bytes, went) ↦
          rw (given, went, emit)
            (inl (record {
              proto = proto;
              bytes = bytes;
              made = made;
              code_is = refl;
              serialized = went;
              caller_is = refl;
            }))
    ]
  ]

  -- A refusal before anything is written.
  refuse-IsAnswer :
      (e : Error) (c : Caller Bytes)
      → IsAnswer message malloc codec Made c (generate_error message malloc e c)
  refuse-IsAnswer e c = generate_error-IsAnswer e c.output c

module _ (message : Error → Bytes) (malloc : ℕ → Option Bytes) where
  -- `psi_client_create_request` returns, unless the text of an error is asked for and `malloc` has no
  -- memory for it, where the call writes through a null pointer. With the code 0 the caller has a request that the
  -- client of the context made of the inputs, serialized, with its size. With any other code, which is
  -- that of an error, the caller has the error's text if it asked for one, and the size is as it was.
  pub psi_client_create_request-IsAnswer :
      (codec : Codec Request) (ctx : ClientContext) (inputs : List Bytes) (c : Caller Bytes)
      → IsAnswer message malloc codec
          (λ request.
            (client : _) × (ctx ≡ some client) × (create_request client inputs ≡ ok request))
          c
          (psi_client_create_request message malloc codec ctx inputs c)
  unfolding psi_client_create_request
  psi_client_create_request-IsAnswer codec none inputs c =
      refuse-IsAnswer message malloc codec _ _ c
  psi_client_create_request-IsAnswer codec (some client) inputs c =
      elim (Result-cases (create_request client inputs)) [
        | inl (request, made) ↦
            rw (made, psi_client_create_request)
              (emit-IsAnswer message malloc codec _ _ request c (client, refl, made))
        | inr (e, failed) ↦
            rw (failed, psi_client_create_request) (refuse-IsAnswer message malloc codec _ e c)
      ]

  -- `psi_server_process_request` returns, unless the text of an error is asked for and `malloc` has no
  -- memory for it, where the call writes through a null pointer. With the code 0 the caller has the response that the
  -- server of the context made of the request that the bytes parse to, serialized, with its size. With
  -- any other code, which is that of an error, the caller has the error's text if it asked for one, and
  -- the size is as it was.
  pub psi_server_process_request-IsAnswer :
      (requests : Codec Request) (responses : Codec ServerResponse) (ctx : ServerContext)
      (client_request : Bytes) (c : Caller Bytes)
      → IsAnswer message malloc responses
          (λ response.
            (server : _) × (request : Request) × (ctx ≡ some server)
            × (requests.parse client_request ≡ some request)
            × (process_request server request ≡ ok response))
          c
          (psi_server_process_request message malloc requests responses ctx client_request c)
  unfolding psi_server_process_request
  psi_server_process_request-IsAnswer requests responses none client_request c =
      refuse-IsAnswer message malloc responses _ _ c
  psi_server_process_request-IsAnswer requests responses (some server) client_request c =
      elim (Option-cases (requests.parse client_request)) [
        | inl bad ↦
            rw (bad, psi_server_process_request) (refuse-IsAnswer message malloc responses _ _ c)
        | inr (request, parsed) ↦ elim (Result-cases (process_request server request)) [
          | inl (response, made) ↦
              rw (parsed, made, psi_server_process_request)
                (emit-IsAnswer message malloc responses _ _ response c
                  (server, request, refl, refl, made))
          | inr (e, failed) ↦
              rw (parsed, failed, psi_server_process_request)
                (refuse-IsAnswer message malloc responses _ e c)
        ]
      ]
