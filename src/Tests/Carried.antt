-- ===== src/Tests/Carried.antt =====
-- Codecs that carry messages, for the C interface of private_set_intersection/c, and a whole run over
-- them.
use mathlib.Core.List.{Memᴰ}
use open_mined_psi.Base.{
  ℕ, zero, suc, ◌<◌, ◌≡◌, ◌↔◌, refl, ap, ◌∙◌, Bool, true, false, Bytes, List, [], ◌∷◌, ◌++◌, Option,
  none, some, length, get_or, replicate,
}
use open_mined_psi.Base.Integer.{pos}
use open_mined_psi.Status.{Error}
use open_mined_psi.Protocol.{
  DataStructure, raw, gcs, bloom_filter, not_set, ServerSetup, Request, ServerResponse,
}
use open_mined_psi.Protocol.Messages.{raw_to_protobuf}
use open_mined_psi.Protocol.Server.{choose_raw}
use open_mined_psi.CApi.{returned, Caller, Codec}
use open_mined_psi.CApi.Client.{psi_client_create_request, psi_client_get_intersection}
use open_mined_psi.CApi.Server.{psi_server_create_setup_message, psi_server_process_request}
use open_mined_psi.CApi.Run.{Travels, run_bytes-Raw}
use open_mined_psi.Tests.Ciphers.{
  both, both-IsDistinct, client, server, client_cipher, server_cipher, commutes, digest, doubles,
}
use open_mined_psi.Tests.Orders.{unsorted, order_of, keyed-Orders}

-- An element is its bytes, a 1 in front of each, and a 0 at its end.
abbrev element_bytes : Bytes → Bytes
element_bytes [] = 0 ∷ []
element_bytes (b ∷ x) = 1 ∷ b ∷ element_bytes x

abbrev list_bytes : List Bytes → Bytes
list_bytes [] = []
list_bytes (x ∷ xs) = element_bytes x ++ list_bytes xs

abbrev push : ℕ → List Bytes → List Bytes
push b [] = (b ∷ []) ∷ []
push b (x ∷ xs) = (b ∷ x) ∷ xs

abbrev list_of : Bytes → List Bytes
list_of [] = []
list_of (zero ∷ rest) = [] ∷ list_of rest
list_of (suc k ∷ []) = []
list_of (suc k ∷ b ∷ rest) = push b (list_of rest)

list_of-element_bytes : (x rest : Bytes) → list_of (element_bytes x ++ rest) ≡ x ∷ list_of rest
list_of-element_bytes [] rest = refl
list_of-element_bytes (b ∷ x) rest = ap (push b) (list_of-element_bytes x rest)

list_of-list_bytes : (xs : List Bytes) → list_of (list_bytes xs) ≡ xs
list_of-list_bytes [] = refl
list_of-list_bytes (x ∷ xs) =
    list_of-element_bytes x (list_bytes xs) ∙ ap (λ l. x ∷ l) (list_of-list_bytes xs)

abbrev flag : Bool → ℕ
flag true = 1
flag false = 0

abbrev flag_of : ℕ → Bool
flag_of zero = false
flag_of (suc n) = true

flag_of-flag : (b : Bool) → flag_of (flag b) ≡ b
flag_of-flag true = refl
flag_of-flag false = refl

abbrev raw_bytes : DataStructure → Option Bytes
raw_bytes (raw es) = some (list_bytes es)
raw_bytes (gcs g) = none
raw_bytes (bloom_filter f) = none
raw_bytes not_set = none

abbrev size_of : Option Bytes → ℕ
size_of none = 0
size_of (some bytes) = length bytes

abbrev setups : Codec ServerSetup
setups = record {
  byte_size = λ s. size_of (raw_bytes s.data_structure);
  serialize = λ s. raw_bytes s.data_structure;
  parse = λ bytes. some (record { setup_initialized = true; data_structure = raw (list_of bytes) });
}

carries_setups : (es : List Bytes) → Travels setups (raw_to_protobuf es)
unfolding raw_to_protobuf
carries_setups es = record {
  bytes = list_bytes es;
  serializes = refl;
  size_is = refl;
  parses = ap (λ l. some (raw_to_protobuf l)) (list_of-list_bytes es);
}

abbrev request_of : Bytes → Option Request
request_of [] = none
request_of (i ∷ []) = none
request_of (i ∷ r ∷ bytes) = some (record {
  request_initialized = flag_of i;
  request_reveal = flag_of r;
  request_elements = list_of bytes;
})

abbrev request_bytes : Request → Bytes
request_bytes m = flag m.request_initialized ∷ flag m.request_reveal ∷ list_bytes m.request_elements

abbrev requests : Codec Request
requests = record {
  byte_size = λ m. length (request_bytes m);
  serialize = λ m. some (request_bytes m);
  parse = request_of;
}

carries_requests : (m : Request) → Travels requests m
carries_requests m = record {
  bytes = request_bytes m;
  serializes = refl;
  size_is = refl;
  parses =
      rw
        (
          flag_of-flag m.request_initialized,
          flag_of-flag m.request_reveal,
          list_of-list_bytes m.request_elements,
        )
        refl;
}

abbrev response_of : Bytes → Option ServerResponse
response_of [] = none
response_of (i ∷ bytes) =
    some (record { response_initialized = flag_of i; response_elements = list_of bytes })

abbrev response_bytes : ServerResponse → Bytes
response_bytes m = flag m.response_initialized ∷ list_bytes m.response_elements

abbrev responses : Codec ServerResponse
responses = record {
  byte_size = λ m. length (response_bytes m);
  serialize = λ m. some (response_bytes m);
  parse = response_of;
}

carries_responses : (m : ServerResponse) → Travels responses m
carries_responses m = record {
  bytes = response_bytes m;
  serializes = refl;
  size_is = refl;
  parses = rw (flag_of-flag m.response_initialized, list_of-list_bytes m.response_elements) refl;
}

abbrev text : Error → Bytes
text e = b'n' ∷ b'o' ∷ []

abbrev malloc : ℕ → Option Bytes
malloc n = some (replicate n 0)

abbrev caller {ℓ} : {A : Type ℓ} → Caller A
caller = record { output = none; out_len = 0; error_out = some [] }

run_bytes-Raw_example :
    (stored : Bytes) × (asked : Bytes) × (answered : Bytes) × (found : List ℕ)
    × (psi_server_create_setup_message text malloc digest doubles
          (λ es. order_of)
          setups
          (some server)
          10
          (pos 2)
          unsorted
          choose_raw
          caller
        ≡ returned 0 (record caller { output = some stored; out_len = length stored }))
    × (psi_client_create_request text malloc requests (some client) both caller
        ≡ returned 0 (record caller { output = some asked; out_len = length asked }))
    × (psi_server_process_request text malloc requests responses (some server) asked caller
        ≡ returned 0 (record caller { output = some answered; out_len = length answered }))
    × (psi_client_get_intersection text malloc digest setups responses
          (some client)
          stored
          answered
          true
          caller
        ≡ returned 0 (record caller { output = some found; out_len = length found }))
    × ((i : ℕ) → Memᴰ i found ↔ ((i < length both) × Memᴰ (get_or both i []) unsorted))
run_bytes-Raw_example =
    run_bytes-Raw text malloc (λ n. replicate n 0) (λ n. refl) setups requests responses
      carries_setups carries_requests carries_responses client_cipher server_cipher commutes digest
      doubles (λ es. order_of) both unsorted 10 (pos 2) keyed-Orders both-IsDistinct caller caller
      caller caller
