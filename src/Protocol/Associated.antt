-- ===== src/Protocol/Associated.antt =====
-- The association table of private_set_intersection/cpp/psi_client.cpp, from the inputs of both sides.
use mathlib.Core.List.{Memᴰ}
use open_mined_psi.Base.{
  ℕ, ◌<◌, ◌≡◌, ◌↔◌, refl, sym, ap, subst, ◌∙◌, Bytes, List, [], map, some, length, get_or, arith,
}
use open_mined_psi.Status.{ok}
use open_mined_psi.Containers.Association.{Table, get_association_table}
use open_mined_psi.Containers.Association.Rows.{rows, IsApart}
use open_mined_psi.Containers.Association.Found.{get_association_table-rows}
use open_mined_psi.Base.Integer.{ℤ}
use open_mined_psi.Containers.Doubles.{Doubles}
use open_mined_psi.Containers.Raw.Cycle.{create-eq}
use open_mined_psi.Containers.Raw.Sorted.{Orders, create-IsAscending}
use open_mined_psi.Protocol.{raw, ServerSetup, Request, ServerResponse, Cipher}
use open_mined_psi.Protocol.Messages.{raw_to_protobuf, raw_from_protobuf}
use open_mined_psi.Protocol.Client.{
  create_request, get_association, process_association, associate_with,
}
use open_mined_psi.Protocol.Server.{choose_raw, build, create_setup_message, process_request}
use open_mined_psi.Protocol.Agreement.{
  Commutes, revealing_client, revealing_server, the_request, the_response, setup_of, run, decrypted,
  server_encrypted, length-map, get_or-map,
}

module _ (client server : Cipher) (law : Commutes client server) (sha256 : Bytes → ℕ) (d : Doubles)
    (order : List Bytes → List ℕ) where
  associated :
      (inputs es : List Bytes) (t : Table)
      → get_association_table (order (map law.under_server inputs)) es (map law.under_server inputs)
        ≡ some t
      → get_association order
          (revealing_client client server law inputs)
          (setup_of client server law inputs (raw es))
          (the_response client server law inputs)
        ≡ some (ok t)
  unfolding get_association process_association associate_with raw_from_protobuf
  associated inputs es t e =
      rw (decrypted client server law inputs (raw es), process_association)
        (rw (e, associate_with) refl)

  -- With `Raw` as the server's data structure, indexes on both sides that `std::sort` puts in order and
  -- a cipher that commutes, the protocol runs to its end and the two vectors of the association table
  -- have the same length, no row stands twice, and the rows are exactly the pairs of an index of a client
  -- input and an index of the sorted setup that the server's permutation takes to an equal server input.
  pub get_association-Raw :
      (inputs server_inputs : List Bytes) (fpr : d.Double) (num_client_inputs : ℤ)
      → Orders (order (map law.under_server server_inputs)) (map law.under_server server_inputs)
      → Orders (order (map law.under_server inputs)) (map law.under_server inputs)
      → (setup : ServerSetup) × (permutation : List ℕ) × (request : Request)
        × (response : ServerResponse) × (t : Table) × (create_setup_message sha256 d order
              (revealing_server client server law inputs)
              fpr
              num_client_inputs
              server_inputs
              choose_raw
            ≡ some (ok (setup, permutation)))
        × (create_request (revealing_client client server law inputs) inputs ≡ ok request)
        × (process_request (revealing_server client server law inputs) request ≡ ok response)
        × (get_association order (revealing_client client server law inputs) setup response
            ≡ some (ok t))
        × (length t.decrypted_permutation ≡ length t.encrypted_permutation)
        × IsApart (rows t.decrypted_permutation t.encrypted_permutation)
        × ((a b : ℕ)
            → Memᴰ (a, b) (rows t.decrypted_permutation t.encrypted_permutation) ↔ (
                (a < length inputs)
                × (b < length server_inputs)
                × (get_or inputs a [] ≡ get_or server_inputs (get_or permutation b 0) [])))
  unfolding create_setup_message build raw_to_protobuf
  get_association-Raw inputs server_inputs fpr n stored asking =
      let keyed = map law.under_server server_inputs in
      let asked = map law.under_server inputs in
      let permutation = order keyed in
      let (es, made, size, ascending, _) = create-IsAscending permutation keyed stored in
      let (es', made', _, value) = create-eq keyed permutation stored.permutes in
      let same : es' ≡ es = cc (made, made') in
      let (t, ended, sizes, apart, exact) =
        get_association_table-rows (order asked) es asked asking ascending in
      let (requested, answered, _) = run client server law inputs sha256 (raw es) in
      let encrypted = server_encrypted client server law inputs server_inputs in
      let many = length-map law.under_server server_inputs in
      let wide = length-map law.under_server inputs in
      let place : (b : ℕ)
          → b < length server_inputs
          → get_or es b [] ≡ law.under_server (get_or server_inputs (get_or permutation b 0) []) =
        λ b h.
          subst (λ l. get_or l b [] ≡ get_or keyed (get_or permutation b 0) []) same
            (value b (omega arith))
          ∙ get_or-map law.under_server server_inputs (get_or permutation b 0)
              (let k = stored.permutes.inside b (omega arith) in omega arith) in
      (
        setup_of client server law inputs (raw es),
        permutation,
        the_request client server law inputs,
        the_response client server law inputs,
        t,
        rw (encrypted, create_setup_message) (rw (made, build)),
        requested,
        answered,
        associated inputs es t ended,
        sizes,
        apart,
        λ a b. (
          λ m.
              let (h, k, e) = (exact a b).0 m in
              let inside : a < length inputs = omega arith in
              let inside' : b < length server_inputs = omega arith in
              (
                inside,
                inside',
                law.injective (get_or inputs a [])
                    (get_or server_inputs (get_or permutation b 0) [])
                    (sym (get_or-map law.under_server inputs a inside) ∙ e ∙ place b inside'),
              ),
          λ (h, k, e). (exact a b).1 (
            omega arith,
            omega arith,
            get_or-map law.under_server inputs a h ∙ ap law.under_server e ∙ sym (place b k),
          ),
        ),
      )
