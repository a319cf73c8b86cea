-- ===== src/Protocol/Whole.antt =====
-- The client and the server of private_set_intersection/cpp together, over `Raw`, from the inputs of
-- both.
use mathlib.Core.List.{Memᴰ}
use open_mined_psi.Base.{ℕ, ◌<◌, ◌≡◌, ◌↔◌, sym, subst, Bytes, List, [], map, some, length, get_or}
use open_mined_psi.Base.Members.{mem-map, mem_of_map}
use open_mined_psi.Status.{ok}
use open_mined_psi.Base.Integer.{ℤ}
use open_mined_psi.Containers.Doubles.{Doubles}
use open_mined_psi.Containers.Raw.Found.{IsDistinct}
use open_mined_psi.Containers.Raw.Sorted.{Orders, create-IsAscending}
use open_mined_psi.Protocol.{raw, ServerSetup, Request, ServerResponse, Cipher}
use open_mined_psi.Protocol.Messages.{raw_to_protobuf}
use open_mined_psi.Protocol.Client.{create_request, get_intersection}
use open_mined_psi.Protocol.Server.{choose_raw, build, create_setup_message, process_request}
use open_mined_psi.Protocol.Agreement.{
  Commutes, revealing_client, revealing_server, get_intersection-Raw, setup_of, server_encrypted,
}

module _ (client server : Cipher) (law : Commutes client server) (sha256 : Bytes → ℕ) (d : Doubles)
    (order : List Bytes → List ℕ) where
  stored_input :
      (x : Bytes) (xs : List Bytes)
      → Memᴰ (law.under_server x) (map law.under_server xs)
      → Memᴰ x xs
  stored_input x xs m =
      let (y, n, e) = mem_of_map law.under_server (law.under_server x) xs m in
      subst (λ z. Memᴰ z xs) (sym (law.injective x y e)) n

  -- With `Raw` as the server's data structure, indexes that `std::sort` puts in order, distinct client
  -- inputs and a cipher that commutes, the protocol runs to its end and the intersection holds exactly
  -- the indexes of the client inputs that are among the server's inputs.
  pub run-Raw :
      (inputs server_inputs : List Bytes) (fpr : d.Double) (num_client_inputs : ℤ)
      → Orders (order (map law.under_server server_inputs)) (map law.under_server server_inputs)
      → IsDistinct inputs
      → (setup : ServerSetup) × (permutation : List ℕ) × (request : Request)
        × (response : ServerResponse) × (found : List ℕ) × (create_setup_message sha256 d order
              (revealing_server client server law inputs)
              fpr
              num_client_inputs
              server_inputs
              choose_raw
            ≡ some (ok (setup, permutation)))
        × (create_request (revealing_client client server law inputs) inputs ≡ ok request)
        × (process_request (revealing_server client server law inputs) request ≡ ok response)
        × (get_intersection sha256 (revealing_client client server law inputs) setup response
            ≡ some (ok found))
        × ((i : ℕ) → Memᴰ i found ↔ ((i < length inputs) × Memᴰ (get_or inputs i []) server_inputs))
  unfolding create_setup_message build raw_to_protobuf
  run-Raw inputs server_inputs fpr n ordered distinct =
      let keyed = map law.under_server server_inputs in
      let (es, made, size, ascending, same) = create-IsAscending (order keyed) keyed ordered in
      let (request, response, found, asked, answered, ended, exact) =
        get_intersection-Raw client server law inputs sha256 es ascending distinct in
      let encrypted = server_encrypted client server law inputs server_inputs in
      (
        setup_of client server law inputs (raw es),
        order keyed,
        request,
        response,
        found,
        rw (encrypted, create_setup_message) (rw (made, build)),
        asked,
        answered,
        ended,
        λ i.
            let (to, from) = exact i in
            (
              λ m.
                  let (h, stored) = to m in
                  (
                    h,
                    stored_input (get_or inputs i []) server_inputs
                        ((same (law.under_server (get_or inputs i []))).0 stored),
                  ),
              λ (h, m). from (
                h,
                (same (law.under_server (get_or inputs i []))).1
                    (mem-map law.under_server (get_or inputs i []) server_inputs m),
              ),
            ),
      )
