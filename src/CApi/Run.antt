-- ===== src/CApi/Run.antt =====
-- The protocol run through the C interface, private_set_intersection/c/, from bytes to bytes.
use mathlib.Core.List.{Memᴰ}
use open_mined_psi.Base.{
  ℕ, ◌*◌, ◌<◌, ◌≡◌, ◌↔◌, refl, true, Bytes, List, [], map, Option, none, some, length, get_or,
  Option-cases, inl, inr,
}
use open_mined_psi.Base.Integer.{ℤ}
use open_mined_psi.Status.{Reason, Error, Result, ok, err, Result-cases}
use open_mined_psi.Parallel.{transform_single}
use open_mined_psi.Containers.Doubles.{Doubles}
use open_mined_psi.Containers.Raw
use open_mined_psi.Containers.Raw.Found.{IsDistinct}
use open_mined_psi.Containers.Raw.Sorted.{Orders}
use open_mined_psi.Protocol.{ServerSetup, Request, ServerResponse, Cipher}
use open_mined_psi.Protocol.Messages.{raw_to_protobuf}
use open_mined_psi.Protocol.Server.{PsiServer, choose_raw, build, create_setup_message}
use open_mined_psi.Protocol.Agreement.{Commutes, revealing_client, revealing_server}
use open_mined_psi.Protocol.Whole.{run-Raw}
use open_mined_psi.CApi.{returned, Caller, Codec, emit}
use open_mined_psi.CApi.Client.{
  psi_client_create_request, with_messages, emit_indices, psi_client_get_intersection,
}
use open_mined_psi.CApi.Server.{psi_server_create_setup_message, psi_server_process_request}

-- What the protobuf library promises of a message: it is serialized to as many bytes as it said, and
-- they parse to it.
pub record Travels {M : Type 0} (codec : Codec M) (m : M) : Type 0 where
  pub bytes : Bytes
  pub serializes : codec.serialize m ≡ some bytes
  pub size_is : codec.byte_size m ≡ length bytes
  pub parses : codec.parse bytes ≡ some m

-- A setup message over `Raw` is a `Raw` one.
raw_setup :
    (sha256 : Bytes → ℕ) (d : Doubles) (order : List Bytes → List ℕ) (server : PsiServer)
    (fpr : d.Double) (n : ℤ) (inputs : List Bytes) (setup : ServerSetup) (permutation : List ℕ)
    → create_setup_message sha256 d order server fpr n inputs choose_raw
      ≡ some (ok (setup, permutation))
    → (es : List Bytes) × (setup ≡ raw_to_protobuf es)
unfolding create_setup_message build
raw_setup sha256 d order server fpr n inputs setup permutation h =
    elim (Result-cases (transform_single server.ec_cipher.encrypt inputs)) [
      | inr (e, bad) ↦
          let q : Path (Option (Result (ServerSetup × List ℕ))) (some (err e))
              (some (ok (setup, permutation))) =
            rw (bad, create_setup_message) at h in
          cc
      | inl (encrypted, ran) ↦ elim (Option-cases (Raw.create (order encrypted) encrypted)) [
        | inl gone ↦
            let q : Path (Option (Result (ServerSetup × List ℕ))) none
                (some (ok (setup, permutation))) =
              rw (ran, gone, create_setup_message, build) at h in
            cc
        | inr (es, made) ↦
            let q : Path (Option (Result (ServerSetup × List ℕ)))
                (some (ok (raw_to_protobuf es, order encrypted))) (some (ok (setup, permutation))) =
              rw (ran, made, create_setup_message, build) at h in
            (es, cc)
      ]
    ]

module _ (message : Error → Bytes) (malloc : ℕ → Option Bytes) (fresh : ℕ → Bytes)
    (given : (n : ℕ) → malloc n ≡ some (fresh n)) where
  emit_sent :
      {M : Type 0} (codec : Codec M) (m : M) (sent : Travels codec m) (reason : Reason)
      (c : Caller Bytes)
      → emit message malloc codec reason m c
        ≡ returned 0 (record c { output = some sent.bytes; out_len = length sent.bytes })
  unfolding emit
  emit_sent codec m sent reason c =
      rw (given (codec.byte_size m), sent.serializes, sent.size_is, emit) refl

  -- Where memory is given, the protobuf library carries every `Raw` setup, every request and every
  -- response, `std::sort` puts the indexes of the encrypted server inputs in order, the client inputs
  -- are distinct and the cipher commutes, each of the four calls of the C interface returns 0, with the
  -- bytes of its message and their number, the later calls being given the bytes that the earlier ones
  -- wrote, and the array at the end holds exactly the indexes of the client inputs that are among the
  -- server's inputs, with its size.
  pub run_bytes-Raw :
      (setups : Codec ServerSetup) (requests : Codec Request) (responses : Codec ServerResponse)
      (carries_setups : (es : List Bytes) → Travels setups (raw_to_protobuf es))
      (carries_requests : (m : Request) → Travels requests m)
      (carries_responses : (m : ServerResponse) → Travels responses m) (client server : Cipher)
      (law : Commutes client server) (sha256 : Bytes → ℕ) (d : Doubles)
      (order : List Bytes → List ℕ) (inputs server_inputs : List Bytes) (fpr : d.Double)
      (num_client_inputs : ℤ)
      → Orders (order (map law.under_server server_inputs)) (map law.under_server server_inputs)
      → IsDistinct inputs
      → (c1 c2 c3 : Caller Bytes) (c4 : Caller (List ℕ))
      → (stored : Bytes) × (asked : Bytes) × (answered : Bytes) × (found : List ℕ)
        × (psi_server_create_setup_message message malloc sha256 d order setups
              (some (revealing_server client server law inputs))
              fpr
              num_client_inputs
              server_inputs
              choose_raw
              c1
            ≡ returned 0 (record c1 { output = some stored; out_len = length stored }))
        × (psi_client_create_request message malloc requests
              (some (revealing_client client server law inputs))
              inputs
              c2
            ≡ returned 0 (record c2 { output = some asked; out_len = length asked }))
        × (psi_server_process_request message malloc requests responses
              (some (revealing_server client server law inputs))
              asked
              c3
            ≡ returned 0 (record c3 { output = some answered; out_len = length answered }))
        × (psi_client_get_intersection message malloc sha256 setups responses
              (some (revealing_client client server law inputs))
              stored
              answered
              true
              c4
            ≡ returned 0 (record c4 { output = some found; out_len = length found }))
        × ((i : ℕ) → Memᴰ i found ↔ ((i < length inputs) × Memᴰ (get_or inputs i []) server_inputs))
  unfolding psi_server_create_setup_message psi_client_create_request psi_server_process_request
      psi_client_get_intersection with_messages emit_indices
  run_bytes-Raw setups requests responses carries_setups carries_requests carries_responses client
        server law sha256 d order inputs server_inputs fpr n ordered distinct c1 c2 c3 c4 =
      let (setup, permutation, request, response, found, sets, asks, answers, finds, exact) =
        run-Raw client server law sha256 d order inputs server_inputs fpr n ordered distinct in
      let (es, is_raw) =
        raw_setup sha256 d order (revealing_server client server law inputs) fpr n server_inputs
          setup permutation sets in
      let kept : Travels setups setup = rw is_raw (carries_setups es) in
      let sent = carries_requests request in
      let back = carries_responses response in
      (
        kept.bytes,
        sent.bytes,
        back.bytes,
        found,
        rw (sets, psi_server_create_setup_message) (emit_sent setups setup kept _ c1),
        rw (asks, psi_client_create_request) (emit_sent requests request sent _ c2),
        rw (sent.parses, answers, psi_server_process_request)
            (emit_sent responses response back _ c3),
        rw (kept.parses, back.parses, with_messages)
            (rw finds (rw (given (length found * 8), emit_indices))),
        exact,
      )
