-- ===== src/Tests/Associated.antt =====
-- The association table at concrete inputs.
use mathlib.Core.List.{Memᴰ}
use open_mined_psi.Base.{ℕ, ◌<◌, ◌≡◌, ◌↔◌, Bytes, List, [], ◌∷◌, some, length, get_or}
use open_mined_psi.Base.Integer.{pos}
use open_mined_psi.Status.{ok}
use open_mined_psi.Containers.Association.{Table, get_association_table}
use open_mined_psi.Containers.Association.Rows.{rows, IsApart}
use open_mined_psi.Containers.Association.Found.{get_association_table-rows}
use open_mined_psi.Protocol.{ServerSetup, Request, ServerResponse}
use open_mined_psi.Protocol.Client.{create_request, get_association}
use open_mined_psi.Protocol.Server.{choose_raw, create_setup_message, process_request}
use open_mined_psi.Protocol.Associated.{get_association-Raw}
use open_mined_psi.Tests.Ciphers.{
  client_cipher, server_cipher, commutes, client, server, digest, doubles,
}
use open_mined_psi.Tests.Orders.{unsorted, order_of, order_of-Orders, keyed-Orders}

abbrev encrypted : List Bytes
encrypted = (5 ∷ []) ∷ []

get_association_table-rows_example :
    (t : Table) × (get_association_table order_of encrypted unsorted ≡ some t)
    × (length t.decrypted_permutation ≡ length t.encrypted_permutation)
    × IsApart (rows t.decrypted_permutation t.encrypted_permutation)
    × ((a b : ℕ)
        → Memᴰ (a, b) (rows t.decrypted_permutation t.encrypted_permutation) ↔ (
            (a < length unsorted)
            × (b < length encrypted)
            × (get_or unsorted a [] ≡ get_or encrypted b [])))
get_association_table-rows_example =
    get_association_table-rows order_of encrypted unsorted order_of-Orders (λ y m. elim m [ ], tt)

get_association-Raw_example :
    (s : ServerSetup) × (permutation : List ℕ) × (request : Request) × (response : ServerResponse)
    × (t : Table) × (create_setup_message digest doubles
          (λ es. order_of)
          server
          10
          (pos 2)
          unsorted
          choose_raw
        ≡ some (ok (s, permutation)))
    × (create_request client unsorted ≡ ok request)
    × (process_request server request ≡ ok response)
    × (get_association (λ es. order_of) client s response ≡ some (ok t))
    × (length t.decrypted_permutation ≡ length t.encrypted_permutation)
    × IsApart (rows t.decrypted_permutation t.encrypted_permutation)
    × ((a b : ℕ)
        → Memᴰ (a, b) (rows t.decrypted_permutation t.encrypted_permutation) ↔ (
            (a < length unsorted)
            × (b < length unsorted)
            × (get_or unsorted a [] ≡ get_or unsorted (get_or permutation b 0) [])))
get_association-Raw_example =
    get_association-Raw client_cipher server_cipher commutes digest doubles (λ es. order_of)
      unsorted unsorted 10 (pos 2) keyed-Orders keyed-Orders
