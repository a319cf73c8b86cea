-- ===== src/Protocol/Compressed.antt =====
-- The client and the server of private_set_intersection/cpp together, over a Golomb compressed set.
use mathlib.Core.List.{Memᴰ}
use open_mined_psi.Base.{
  ℕ, ◌<◌, ◌%◌, ◌^◌, ◌≡◌, refl, ap, ◌∙◌, false, ◌||◌, Bytes, List, [], map, some, length, get_or,
  arith,
}
use open_mined_psi.Base.Members.{mem-map}
use open_mined_psi.Status.{ok}
use open_mined_psi.Containers.Gcs.{Gcs, hash, intersect}
use open_mined_psi.Containers.Gcs.Found.{IsDefined, create-intersect}
use open_mined_psi.Base.Integer.{ℤ}
use open_mined_psi.Containers.Doubles.{Doubles}
use open_mined_psi.Protocol.{gcs, ServerSetup, Request, ServerResponse, Cipher}
use open_mined_psi.Protocol.Messages.{gcs_to_protobuf, gcs_from_protobuf}
use open_mined_psi.Protocol.Client.{create_request, intersect_with, get_intersection}
use open_mined_psi.Protocol.Server.{choose_gcs, build, create_setup_message, process_request}
use open_mined_psi.Protocol.Agreement.{
  Commutes, revealing_client, revealing_server, the_request, the_response, setup_of, run,
  server_encrypted, length-map, get_or-map,
}

module _ (client server : Cipher) (law : Commutes client server) (sha256 : Bytes → ℕ) (d : Doubles)
    (order : List Bytes → List ℕ) where
  intersected :
      (inputs : List Bytes) (g : Gcs) (asking : List Bytes) (found : List ℕ)
      → intersect sha256 g asking ≡ some found
      → intersect_with sha256 (setup_of client server law inputs (gcs g)) asking ≡ some (ok found)
  unfolding intersect_with gcs_from_protobuf
  intersected inputs g asking found e = rw (e, intersect_with) refl

  -- A divisor below 64 is carried by the message as it is.
  carried :
      (inputs : List Bytes) (g : Gcs)
      → g.gcs_div < 64
      → gcs_to_protobuf g ≡ setup_of client server law inputs (gcs g)
  unfolding gcs_to_protobuf
  carried inputs g h =
      let e : g.gcs_div % 2 ^ 32 ≡ g.gcs_div = omega arith in
      ap (λ n. setup_of client server law inputs (gcs (record g { gcs_div = n }))) e

  -- With a Golomb compressed set as the server's data structure, a corrected rate inside the unit
  -- interval, conversions that are defined and a cipher that commutes, the protocol runs to its end and
  -- the intersection holds the index of every client input that is among the server's inputs.
  pub get_intersection-Gcs :
      (inputs server_inputs : List Bytes) (fpr : d.Double) (num_client_inputs : ℤ)
      → (d.le_zero (d.divide fpr num_client_inputs) || d.ge_one (d.divide fpr num_client_inputs))
        ≡ false
      → IsDefined sha256 d
          (d.divide fpr num_client_inputs)
          num_client_inputs
          (map law.under_server server_inputs)
      → (setup : ServerSetup) × (request : Request) × (response : ServerResponse) × (found : List ℕ)
        × (create_setup_message sha256 d order
              (revealing_server client server law inputs)
              fpr
              num_client_inputs
              server_inputs
              choose_gcs
            ≡ some (ok (setup, [])))
        × (create_request (revealing_client client server law inputs) inputs ≡ ok request)
        × (process_request (revealing_server client server law inputs) request ≡ ok response)
        × (get_intersection sha256 (revealing_client client server law inputs) setup response
            ≡ some (ok found))
        × ((i : ℕ) → i < length inputs → Memᴰ (get_or inputs i []) server_inputs → Memᴰ i found)
  unfolding create_setup_message build intersect_with
  get_intersection-Gcs inputs server_inputs fpr n inside defined =
      let keyed = map law.under_server server_inputs in
      let asking = map law.under_server inputs in
      let (g, made, small, finds) =
        create-intersect sha256 d (d.divide fpr n) n keyed inside defined in
      let (found, ended, holds) = finds asking in
      let (asked, answered, ran) = run client server law inputs sha256 (gcs g) in
      let encrypted = server_encrypted client server law inputs server_inputs in
      (
        setup_of client server law inputs (gcs g),
        the_request client server law inputs,
        the_response client server law inputs,
        found,
        rw (encrypted, create_setup_message)
            (rw (made, build) (ap (λ s. some (ok (s, []))) (carried inputs g small))),
        asked,
        answered,
        ran ∙ intersected inputs g asking found ended,
        λ i h m.
            let x = get_or inputs i [] in
            (holds i).1 (
              omega (arith, length-map law.under_server inputs),
              (
                law.under_server x,
                mem-map law.under_server x server_inputs m,
                ap (hash sha256 g.hash_range) (get_or-map law.under_server inputs i h),
              ),
            ),
      )
