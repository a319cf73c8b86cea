-- ===== src/Tests/Interfaces.antt =====
-- The C interface of private_set_intersection/c at concrete inputs.
use open_mined_psi.Base.{ℕ, ◌≡◌, Bytes, [], ◌∷◌, Option, none, some, length, replicate}
use open_mined_psi.Status.{Error, ok}
use open_mined_psi.Protocol.{Request, ServerResponse}
use open_mined_psi.Protocol.Client.{PsiClient, create_request}
use open_mined_psi.Protocol.Server.{PsiServer, process_request}
use open_mined_psi.CApi.{Caller, Codec}
use open_mined_psi.CApi.Client.{psi_client_create_request}
use open_mined_psi.CApi.Server.{psi_server_process_request}
use open_mined_psi.CApi.Codes.{
  IsAnswer, psi_client_create_request-IsAnswer, psi_server_process_request-IsAnswer,
}
use open_mined_psi.Tests.Ciphers.{both, client, server, request, response}

abbrev message : Error → Bytes
message e = b'n' ∷ b'o' ∷ []

-- Memory is never short here.
abbrev malloc : ℕ → Option Bytes
malloc n = some (replicate n 0)

-- A codec that carries one message.
abbrev codec_of {ℓ} : {M : Type ℓ} → M → Bytes → Codec M
codec_of m bytes = record {
  byte_size = λ x. length bytes;
  serialize = λ x. some bytes;
  parse = λ x. some m;
}

abbrev requests : Codec Request
requests = codec_of request (9 ∷ [])

abbrev responses : Codec ServerResponse
responses = codec_of response (8 ∷ 8 ∷ [])

abbrev caller {ℓ} : {A : Type ℓ} → Caller A
caller = record { output = none; out_len = 0; error_out = some [] }

psi_client_create_request-IsAnswer_example :
    IsAnswer message malloc requests
      (λ r. (x : PsiClient) × (some client ≡ some x) × (create_request x both ≡ ok r))
      caller
      (psi_client_create_request message malloc requests (some client) both caller)
psi_client_create_request-IsAnswer_example =
    psi_client_create_request-IsAnswer message malloc requests (some client) both caller

psi_server_process_request-IsAnswer_example :
    IsAnswer message malloc responses
      (λ r.
        (x : PsiServer) × (q : Request) × (some server ≡ some x)
        × (requests.parse (9 ∷ []) ≡ some q)
        × (process_request x q ≡ ok r))
      caller
      (psi_server_process_request message malloc requests responses (some server) (9 ∷ []) caller)
psi_server_process_request-IsAnswer_example =
    psi_server_process_request-IsAnswer message malloc requests responses (some server) (9 ∷ [])
      caller
