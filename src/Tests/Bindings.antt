-- ===== src/Tests/Bindings.antt =====
-- The bindings to JavaScript and to Node at concrete inputs.
use open_mined_psi.Base.{
  length, ◌+◌, ◌^◌, ◌≤◌, ℕ, ◌≡◌, Bool, true, Bytes, List, [], ◌∷◌, some, none, arith,
}
use open_mined_psi.Status.{Error, Result, ok, done}
use open_mined_psi.Match.Session.{PsiMatch, create, seal_setup}
use open_mined_psi.Match.Wire.{entries, setup_message, varint}
use open_mined_psi.Match.Wire.Whole.{expected}
use open_mined_psi.Protocol.{ServerSetup, Request, ServerResponse, Cipher}
use open_mined_psi.Base.Integer.{ℤ}
use open_mined_psi.JavaScript.{Message}
use open_mined_psi.JavaScript.Match.{
  js_add_setup_bytes, js_seal_setup, js_match_response_piece, js_finish,
}
use open_mined_psi.JavaScript.Whole.{nothing_wrong, result_object, js_finish-expected}
use open_mined_psi.Node.{returned, uint8_array}
use open_mined_psi.Node.Client.{
  node_create_client, node_create_request, node_create_match, node_get_intersection,
  node_get_association_table, node_get_intersection_size,
}
use open_mined_psi.Node.Server.{node_create_server, node_create_setup_message, node_process_request}
use open_mined_psi.Node.Match.{
  PsiMatchWrap, node_add_setup_bytes, node_seal_setup, node_match_response_piece, node_finish,
}
use open_mined_psi.Node.Whole.{node_finish-expected}
use open_mined_psi.Node.Exclusive.{has_one, IsExclusive, IsSetupExclusive, objects-IsExclusive}
use open_mined_psi.Tests.Matches.{two, two-IsSorted}
use open_mined_psi.Tests.Wires.{plain, answers, two-AllShort, answers-AllShort, two_fit, all_plain}
use open_mined_psi.Tests.Ciphers.{
  both, client, server, client_cipher, setup, digest, doubles, request, response,
}
use open_mined_psi.Tests.Orders.{order_of}

abbrev text : Error → Bytes
text e = b'n' ∷ b'o' ∷ []

two_window : length (setup_message two) + 2 ^ 20 ≤ 2 ^ 32
unfolding setup_message varint entries
two_window = omega arith

answers_window : length (entries answers) + 2 ^ 20 ≤ 2 ^ 32
unfolding entries
answers_window = omega arith

js_finish-expected_example :
    (m1 m2 m3 m4 : PsiMatch) × (js_add_setup_bytes text (create true) (setup_message two)
      ≡ some (nothing_wrong, m1))
    × (js_seal_setup text m1 ≡ some (nothing_wrong, m2))
    × (js_match_response_piece text plain m2 (entries answers) ≡ some (nothing_wrong, m3))
    × (js_finish text m3 ≡ some (result_object true (expected true two answers), m4))
js_finish-expected_example =
    js_finish-expected text plain true two answers answers two-IsSorted two-AllShort two_fit
      answers-AllShort (omega arith) all_plain two_window answers_window

node_finish-expected_example :
    (w1 w2 w3 w4 : PsiMatchWrap) × (node_add_setup_bytes text
        (some (create true))
        (uint8_array (setup_message two))
      ≡ (returned nothing_wrong, w1))
    × (node_seal_setup text w1 ≡ (returned nothing_wrong, w2))
    × (node_match_response_piece text plain w2 (uint8_array (entries answers))
        ≡ (returned nothing_wrong, w3))
    × (node_finish text w3 ≡ (returned (result_object true (expected true two answers)), w4))
node_finish-expected_example =
    node_finish-expected text plain true two answers answers two-IsSorted two-AllShort two_fit
      answers-AllShort (omega arith) all_plain

-- A message type that carries one message.
abbrev carries {ℓ} : {M : Type ℓ} → M → Bytes → Message M
carries m bytes = record { written = λ x. bytes; parse_from_string = λ x. (true, m) }

abbrev setups : Message ServerSetup
setups = carries setup (7 ∷ [])

abbrev requests : Message Request
requests = carries request (9 ∷ [])

abbrev responses : Message ServerResponse
responses = carries response (8 ∷ 8 ∷ [])

abbrev order : List Bytes → List ℕ
order es = order_of

abbrev from_key : Bytes → Result Cipher
from_key key = ok client_cipher

objects-IsExclusive_example :
    IsExclusive
      (node_get_intersection text digest order setups responses (some client) (7 ∷ []) (8 ∷ 8 ∷ []))
    × IsExclusive (
        node_get_association_table text digest order setups responses
          (some client)
          (7 ∷ [])
          (8 ∷ 8 ∷ []))
    × IsExclusive (
        node_get_intersection_size text digest order setups responses
          (some client)
          (7 ∷ [])
          (8 ∷ 8 ∷ []))
    × IsExclusive (node_create_request text requests (some client) both)
    × IsExclusive (node_create_match text from_key (some client))
    × IsExclusive (node_process_request text requests responses (some server) (9 ∷ []))
    × IsExclusive (node_finish text (some (create true))).0
    × ((fpr : ℕ) (n ds : ℤ) (include_permutation : Bool)
        → IsSetupExclusive (
            node_create_setup_message text digest doubles order setups
              (some server)
              fpr
              n
              both
              ds
              include_permutation))
    × (has_one (node_create_client text (ok client_cipher) true) ≡ true)
    × (has_one (node_create_server text (ok client_cipher) true) ≡ true)
    × ((m m' : PsiMatch)
        → seal_setup m ≡ some (done, m')
        → node_seal_setup text (some m)
          ≡ (returned (record { value = none; status = none }), some m'))
objects-IsExclusive_example =
    objects-IsExclusive text digest doubles order setups requests responses (some client)
      (some server) (some (create true)) (7 ∷ []) (8 ∷ 8 ∷ []) (9 ∷ []) both from_key
      (ok client_cipher) true
