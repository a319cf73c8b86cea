-- ===== src/JavaScript/Server.antt =====
-- `PsiServer` of private_set_intersection/javascript/cpp/server.cpp. `none` is a loop of the core that ran
-- out of fuel, or an undefined conversion in the core.
use open_mined_psi.Base.{
  ℕ, Bool, true, false, ◌&&◌, Bytes, List, length, map, replicate, Option, none, some,
  if◌then◌else◌,
}
use open_mined_psi.Status.{Error, Result, ok, err}
use open_mined_psi.Base.Integer.{ℤ, pos, to_uint32}
use open_mined_psi.Containers.Doubles.{Doubles}
use open_mined_psi.Protocol.{ServerSetup, Request, ServerResponse, Cipher}
use open_mined_psi.Protocol.Server.{
  PsiServer, Choice, choose_raw, choose_gcs, choose_bloom_filter, choose_unnamed, create_server,
  create_setup_message, process_request, get_private_key_bytes,
}
use open_mined_psi.JavaScript.{JsObject, Message, to_int32, to_js_object, to_serialized_js_object}

-- `ds == DataStructure::Raw`
abbrev pub is_raw : Choice → Bool
is_raw choose_raw = true
is_raw choose_gcs = false
is_raw choose_bloom_filter = false
is_raw choose_unnamed = false

-- The object of `CreateSetupMessage`; `permutation` is `none` where it has no such key.
pub record SetupObject : Type 0 where
  pub object : JsObject Bytes
  pub permutation : Option (List ℕ)

module _ (message : Error → Bytes) where
  -- `CreateWithNewKey` and `CreateFromKey`, by what the cipher library returned.
  unfoldable pub js_create_server : Result Cipher → Bool → JsObject PsiServer
  js_create_server cipher reveal = to_js_object message (create_server cipher reveal)

  module _ (sha256 : Bytes → ℕ) (d : Doubles) (order : List Bytes → List ℕ) where
    -- The number of client inputs is a `std::size_t` of 32 bits. The vector for the permutation has one
    -- zero for each input until `Raw::Create` fills it.
    unfoldable pub js_create_setup_message :
        Message ServerSetup
        → PsiServer
        → d.Double
        → ℤ
        → List Bytes
        → Choice
        → Bool
        → Option SetupObject
    js_create_setup_message setups self fpr num_client_inputs inputs ds include_permutation =
        elim (create_setup_message sha256 d order self fpr (pos (to_uint32 num_client_inputs))
          inputs ds) [
            | none ↦ none
            | some (err e) ↦ some (record {
              object = to_serialized_js_object message setups (err e);
              permutation =
                  if include_permutation && is_raw ds
                  then some (replicate (length inputs) 0)
                  else none;
            })
            | some (ok (setup, permutation)) ↦ some (record {
              object = to_serialized_js_object message setups (ok setup);
              permutation =
                  if include_permutation && is_raw ds
                  then some (map to_int32 permutation)
                  else none;
            })
          ]

  -- The answer of `ParseFromString` is not looked at.
  unfoldable pub js_process_request :
      Message Request → Message ServerResponse → PsiServer → Bytes → JsObject Bytes
  js_process_request requests responses self client_request =
      to_serialized_js_object message responses
        (process_request self (requests.parse_from_string client_request).1)

-- `GetPrivateKeyBytes`, an array and no object.
unfoldable pub js_server_private_key_bytes : PsiServer → Bytes
js_server_private_key_bytes self = get_private_key_bytes self.ec_cipher
