-- ===== src/Node/Getters.antt =====
-- What the client's methods on a setup and a response return in the bindings to Node,
-- private_set_intersection/napi/psi_napi.cpp, and to JavaScript,
-- private_set_intersection/javascript/cpp/client.cpp, on messages that parse.
use open_mined_psi.Base.{
  ℕ, ◌≡◌, refl, true, Bytes, List, map, Option, none, some, Option-cases, inl, inr,
}
use open_mined_psi.Status.{Error, ok, err}
use open_mined_psi.Protocol.{ServerSetup, ServerResponse}
use open_mined_psi.Protocol.Client.{
  PsiClient, get_intersection, get_intersection_size, get_association,
}
use open_mined_psi.JavaScript.{JsObject, Message, to_int32, to_js_object}
use open_mined_psi.JavaScript.Client.{
  js_get_intersection, js_get_association_table, js_get_intersection_size,
}
use open_mined_psi.Node.{
  Answer, returned, has_been_deleted, starved, make_ok, make_error, parse_from_array,
}
use open_mined_psi.Node.Client.{
  parse_setup_and_response, node_get_intersection, node_get_association_table,
  node_get_intersection_size,
}

-- An object with its value changed.
abbrev pub map_value {ℓ κ} : {A : Type ℓ} {B : Type κ} → (A → B) → JsObject A → JsObject B
map_value f o = record {
  value = elim o.value [ none ↦ none | some a ↦ some (f a) ];
  status = o.status;
}

-- What a method returned, with its value changed.
abbrev pub answered {ℓ κ} :
    {A : Type ℓ} {B : Type κ} → (A → B) → Answer (JsObject A) → Option (JsObject B)
answered f (returned o) = some (map_value f o)
answered f has_been_deleted = none
answered f starved = none

abbrev pub both_to_int32 : List ℕ × List ℕ → List ℕ × List ℕ
both_to_int32 (xs, ys) = (map to_int32 xs, map to_int32 ys)

abbrev pub same_value {ℓ} : {A : Type ℓ} → A → A
same_value a = a

pub parsed {ℓ} :
    {M : Type ℓ} (codec : Message M) (bytes : Bytes)
    → (codec.parse_from_string bytes).0 ≡ true
    → parse_from_array codec bytes ≡ some (codec.parse_from_string bytes).1
unfolding parse_from_array
parsed codec bytes h = rw (h, parse_from_array) refl

both_parsed :
    (setups : Message ServerSetup) (responses : Message ServerResponse)
    (setup_bytes response_bytes : Bytes)
    → (setups.parse_from_string setup_bytes).0 ≡ true
    → (responses.parse_from_string response_bytes).0 ≡ true
    → parse_setup_and_response setups responses setup_bytes response_bytes
      ≡ ok
          ((setups.parse_from_string setup_bytes).1, (responses.parse_from_string response_bytes).1)
unfolding parse_setup_and_response
both_parsed setups responses setup_bytes response_bytes h k =
    rw (parsed setups setup_bytes h, parsed responses response_bytes k, parse_setup_and_response)
      refl

module _ (message : Error → Bytes) (sha256 : Bytes → ℕ) (order : List Bytes → List ℕ)
    (setups : Message ServerSetup) (responses : Message ServerResponse) where
  pub intersections_agree :
      (client : PsiClient) (setup_bytes response_bytes : Bytes)
      → (setups.parse_from_string setup_bytes).0 ≡ true
      → (responses.parse_from_string response_bytes).0 ≡ true
      → js_get_intersection message sha256 order setups responses client setup_bytes response_bytes
        ≡ answered (map to_int32) (
            node_get_intersection message sha256 order setups responses
              (some client)
              setup_bytes
              response_bytes)
  unfolding js_get_intersection node_get_intersection to_js_object make_ok make_error
  intersections_agree client setup_bytes response_bytes h k =
      let s = (setups.parse_from_string setup_bytes).1 in
      let r = (responses.parse_from_string response_bytes).1 in
      let both = both_parsed setups responses setup_bytes response_bytes h k in
      elim (Option-cases (get_intersection sha256 client s r)) [
        | inl gone ↦ rw (both, gone, js_get_intersection, node_get_intersection) refl
        | inr (err e, ran) ↦ rw (both, ran, js_get_intersection, node_get_intersection) refl
        | inr (ok found, ran) ↦ rw (both, ran, js_get_intersection, node_get_intersection) refl
      ]

  pub tables_agree :
      (client : PsiClient) (setup_bytes response_bytes : Bytes)
      → (setups.parse_from_string setup_bytes).0 ≡ true
      → (responses.parse_from_string response_bytes).0 ≡ true
      → js_get_association_table message sha256 order setups responses client setup_bytes
          response_bytes
        ≡ answered both_to_int32 (
            node_get_association_table message sha256 order setups responses
              (some client)
              setup_bytes
              response_bytes)
  unfolding js_get_association_table node_get_association_table to_js_object make_ok make_error
  tables_agree client setup_bytes response_bytes h k =
      let s = (setups.parse_from_string setup_bytes).1 in
      let r = (responses.parse_from_string response_bytes).1 in
      let both = both_parsed setups responses setup_bytes response_bytes h k in
      elim (Option-cases (get_association order client s r)) [
        | inl gone ↦ rw (both, gone, js_get_association_table, node_get_association_table) refl
        | inr (err e, ran) ↦
            rw (both, ran, js_get_association_table, node_get_association_table) refl
        | inr (ok found, ran) ↦
            rw (both, ran, js_get_association_table, node_get_association_table) refl
      ]

  pub sizes_agree :
      (client : PsiClient) (setup_bytes response_bytes : Bytes)
      → (setups.parse_from_string setup_bytes).0 ≡ true
      → (responses.parse_from_string response_bytes).0 ≡ true
      → js_get_intersection_size message sha256 order setups responses client setup_bytes
          response_bytes
        ≡ answered to_int32 (
            node_get_intersection_size message sha256 order setups responses
              (some client)
              setup_bytes
              response_bytes)
  unfolding js_get_intersection_size node_get_intersection_size to_js_object make_ok make_error
  sizes_agree client setup_bytes response_bytes h k =
      let s = (setups.parse_from_string setup_bytes).1 in
      let r = (responses.parse_from_string response_bytes).1 in
      let both = both_parsed setups responses setup_bytes response_bytes h k in
      elim (Option-cases (get_intersection_size sha256 client s r)) [
        | inl gone ↦ rw (both, gone, js_get_intersection_size, node_get_intersection_size) refl
        | inr (err e, ran) ↦
            rw (both, ran, js_get_intersection_size, node_get_intersection_size) refl
        | inr (ok found, ran) ↦
            rw (both, ran, js_get_intersection_size, node_get_intersection_size) refl
      ]
