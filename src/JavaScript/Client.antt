-- ===== src/JavaScript/Client.antt =====
-- `PsiClient` of private_set_intersection/javascript/cpp/client.cpp. `none` is a loop of the core that ran
-- out of fuel.
use open_mined_psi.Base.{ℕ, Bool, Bytes, List, map, Option, none, some}
use open_mined_psi.Status.{Error, Result, ok, err}
use open_mined_psi.Match.Session.{PsiMatch}
use open_mined_psi.Protocol.{ServerSetup, Request, ServerResponse, Cipher}
use open_mined_psi.Protocol.Client.{
  PsiClient, create_client, create_request, get_intersection, get_intersection_size,
  get_association, create_match, get_private_key_bytes,
}
use open_mined_psi.JavaScript.{JsObject, Message, to_int32, to_js_object, to_serialized_js_object}

module _ (message : Error → Bytes) where
  -- `CreateWithNewKey` and `CreateFromKey`, by what the cipher library returned.
  unfoldable pub js_create_client : Result Cipher → Bool → JsObject PsiClient
  js_create_client cipher reveal = to_js_object message (create_client cipher reveal)

  unfoldable pub js_create_request : Message Request → PsiClient → List Bytes → JsObject Bytes
  js_create_request requests self inputs =
      to_serialized_js_object message requests (create_request self inputs)

  -- The copy of a key that `CreateFromKey` made goes to the match.
  unfoldable pub js_create_match :
      (Bytes → Result Cipher) → PsiClient → JsObject (Cipher × PsiMatch)
  js_create_match create_from_key self = to_js_object message (create_match create_from_key self)

  module _ (sha256 : Bytes → ℕ) (order : List Bytes → List ℕ) (setups : Message ServerSetup)
      (responses : Message ServerResponse) where
    -- The answers of `ParseFromString` are not looked at.
    unfoldable pub js_get_intersection : PsiClient → Bytes → Bytes → Option (JsObject (List ℕ))
    js_get_intersection self server_setup server_response =
        elim (get_intersection sha256 self (setups.parse_from_string server_setup).1
          (responses.parse_from_string server_response).1) [
            | none ↦ none
            | some (err e) ↦ some (to_js_object message (err e))
            | some (ok indices) ↦ some (to_js_object message (ok (map to_int32 indices)))
          ]

    -- The array of two arrays.
    unfoldable pub js_get_association_table :
        PsiClient → Bytes → Bytes → Option (JsObject (List ℕ × List ℕ))
    js_get_association_table self server_setup server_response =
        elim (get_association order self (setups.parse_from_string server_setup).1
          (responses.parse_from_string server_response).1) [
            | none ↦ none
            | some (err e) ↦ some (to_js_object message (err e))
            | some (ok t) ↦ some (
                to_js_object message
                  (ok (map to_int32 t.decrypted_permutation, map to_int32 t.encrypted_permutation)))
          ]

    unfoldable pub js_get_intersection_size : PsiClient → Bytes → Bytes → Option (JsObject ℕ)
    js_get_intersection_size self server_setup server_response =
        elim (get_intersection_size sha256 self (setups.parse_from_string server_setup).1
          (responses.parse_from_string server_response).1) [
            | none ↦ none
            | some (err e) ↦ some (to_js_object message (err e))
            | some (ok size) ↦ some (to_js_object message (ok (to_int32 size)))
          ]

-- `GetPrivateKeyBytes`, an array and no object.
unfoldable pub js_client_private_key_bytes : PsiClient → Bytes
js_client_private_key_bytes self = get_private_key_bytes self.ec_cipher
