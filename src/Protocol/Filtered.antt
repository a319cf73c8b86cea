-- ===== src/Protocol/Filtered.antt =====
-- The client and the server of private_set_intersection/cpp together, over a Bloom filter.
use mathlib.Core.List.{Memᴰ}
use open_mined_psi.Base.{
  ℕ, ◌<◌, ◌≡◌, false, ◌||◌, Bytes, List, [], map, some, length, get_or, arith,
}
use open_mined_psi.Base.Members.{mem-map}
use open_mined_psi.Status.{ok}
use open_mined_psi.Containers.Bloom
use open_mined_psi.Base.Integer.{ℤ, larger}
use open_mined_psi.Containers.Doubles.{Doubles}
use open_mined_psi.Containers.Bloom.Found.{create-check, mem_of_check}
use open_mined_psi.Protocol.{bloom_filter, ServerSetup, Request, ServerResponse, Cipher}
use open_mined_psi.Protocol.Messages.{bloom_filter_to_protobuf, bloom_filter_from_protobuf}
use open_mined_psi.Protocol.Client.{create_request, intersect_with, get_intersection}
use open_mined_psi.Protocol.Server.{
  choose_bloom_filter, build, create_setup_message, process_request,
}
use open_mined_psi.Protocol.Agreement.{
  Commutes, revealing_client, revealing_server, the_request, the_response, setup_of, run,
  server_encrypted, length-map, get_or-map,
}

module _ (client server : Cipher) (law : Commutes client server) (sha256 : Bytes → ℕ) (d : Doubles)
    (order : List Bytes → List ℕ) where
  -- With a Bloom filter as the server's data structure, a corrected rate inside the unit interval, a filter that
  -- has a byte and a cipher that commutes, the protocol runs to its end and the intersection holds the
  -- index of every client input that is among the server's inputs.
  pub get_intersection-BloomFilter :
      (inputs server_inputs : List Bytes) (fpr : d.Double) (num_client_inputs : ℤ)
      → (d.le_zero (d.divide fpr num_client_inputs) || d.ge_one (d.divide fpr num_client_inputs))
        ≡ false
      → 0
        < d.filter_bytes
            (d.divide fpr num_client_inputs)
            (larger num_client_inputs (length server_inputs))
      → (setup : ServerSetup) × (request : Request) × (response : ServerResponse) × (found : List ℕ)
        × (create_setup_message sha256 d order
              (revealing_server client server law inputs)
              fpr
              num_client_inputs
              server_inputs
              choose_bloom_filter
            ≡ some (ok (setup, [])))
        × (create_request (revealing_client client server law inputs) inputs ≡ ok request)
        × (process_request (revealing_server client server law inputs) request ≡ ok response)
        × (get_intersection sha256 (revealing_client client server law inputs) setup response
            ≡ some (ok found))
        × ((i : ℕ) → i < length inputs → Memᴰ (get_or inputs i []) server_inputs → Memᴰ i found)
  unfolding create_setup_message build intersect_with bloom_filter_to_protobuf
      bloom_filter_from_protobuf
  get_intersection-BloomFilter inputs server_inputs fpr n inside some_bytes =
      let keyed = map law.under_server server_inputs in
      let same_size = length-map law.under_server server_inputs in
      let (f, made, finds) =
        create-check sha256 d (d.divide fpr n) n keyed inside (rw same_size some_bytes) in
      let (asked, answered, ended) = run client server law inputs sha256 (bloom_filter f) in
      let encrypted = server_encrypted client server law inputs server_inputs in
      (
        setup_of client server law inputs (bloom_filter f),
        the_request client server law inputs,
        the_response client server law inputs,
        Bloom.intersect sha256 f (map law.under_server inputs),
        rw (encrypted, create_setup_message) (rw (made, build)),
        asked,
        answered,
        ended,
        λ i h m.
            mem_of_check sha256 f (map law.under_server inputs) i
              (omega (arith, length-map law.under_server inputs))
              (rw (get_or-map law.under_server inputs i h) (
                finds (law.under_server (get_or inputs i []))
                  (mem-map law.under_server (get_or inputs i []) server_inputs m))),
      )
