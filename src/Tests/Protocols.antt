-- ===== src/Tests/Protocols.antt =====
-- The containers, the client and the server of private_set_intersection/cpp at concrete inputs.
use mathlib.Core.List.{Memᴰ}
use open_mined_psi.Base.{
  ℕ, ◌<◌, ◌≡◌, ◌↔◌, refl, true, Bytes, List, [], ◌∷◌, some, length, get_or, arith,
}
use open_mined_psi.Base.Order.{str_ltb}
use open_mined_psi.Base.Sort.{IsAscending}
use open_mined_psi.Base.Integer.{pos}
use open_mined_psi.Status.{ok}
use open_mined_psi.Containers.Raw
use open_mined_psi.Containers.Raw.Found.{mem-intersect}
use open_mined_psi.Containers.Bloom.{BloomFilter, create, check}
use open_mined_psi.Containers.Bloom.Found.{create-check}
use open_mined_psi.Protocol.{ServerSetup, Request, ServerResponse}
use open_mined_psi.Protocol.Client.{create_request, get_intersection}
use open_mined_psi.Protocol.Server.{
  choose_bloom_filter, choose_raw, create_setup_message, process_request,
}
use open_mined_psi.Protocol.Agreement.{get_intersection-Raw}
use open_mined_psi.Parallel.{transform_single}
use open_mined_psi.Protocol.Hidden.{hiding_server, hiding_request, process_request-hides}
use open_mined_psi.Tests.Ciphers.{
  both, both-IsDistinct, sealed, under_first, client_cipher, server_cipher, commutes, client,
  server, stored, digest, setup, doubles,
}
use open_mined_psi.Protocol.Whole.{run-Raw}
use open_mined_psi.Containers.Raw.Cycle.{create-eq}
use open_mined_psi.Containers.Raw.Sorted.{create-IsAscending}
use open_mined_psi.Protocol.Filtered.{get_intersection-BloomFilter}
use open_mined_psi.Tests.Orders.{
  unsorted, order_of, order_of-IsPermutation, order_of-Orders, keyed-Orders,
}

mem-intersect_example :
    Memᴰ 1 (Raw.intersect ((5 ∷ []) ∷ []) both)
    ↔ ((1 < length both) × Memᴰ (get_or both 1 []) ((5 ∷ []) ∷ []))
mem-intersect_example = mem-intersect ((5 ∷ []) ∷ []) both (λ y m. elim m [ ], tt) both-IsDistinct 1

get_intersection-Raw_example :
    (request : Request) × (response : ServerResponse) × (found : List ℕ) × (create_request client
        both
      ≡ ok request)
    × (process_request server request ≡ ok response)
    × (get_intersection digest client setup response ≡ some (ok found))
    × ((i : ℕ) → Memᴰ i found ↔ ((i < length both) × Memᴰ (sealed (get_or both i [])) stored))
get_intersection-Raw_example =
    get_intersection-Raw client_cipher server_cipher commutes both digest stored
      (λ y m. elim m [ ], tt) both-IsDistinct

create-check_example :
    (f : BloomFilter) × (create digest doubles 5 (pos 2) both ≡ ok f)
    × ((x : Bytes) → Memᴰ x both → check digest f x ≡ true)
create-check_example = create-check digest doubles 5 (pos 2) both refl (omega arith)

get_intersection-BloomFilter_example :
    (s : ServerSetup) × (request : Request) × (response : ServerResponse) × (found : List ℕ)
    × (create_setup_message digest doubles (λ es. []) server 10 (pos 2) both choose_bloom_filter
        ≡ some (ok (s, [])))
    × (create_request client both ≡ ok request)
    × (process_request server request ≡ ok response)
    × (get_intersection digest client s response ≡ some (ok found))
    × ((i : ℕ) → i < length both → Memᴰ (get_or both i []) both → Memᴰ i found)
get_intersection-BloomFilter_example =
    get_intersection-BloomFilter client_cipher server_cipher commutes digest doubles (λ es. []) both
      both 10 (pos 2) refl (omega arith)

abbrev asked : List Bytes
asked = (1 ∷ 9 ∷ []) ∷ (1 ∷ 4 ∷ []) ∷ []

abbrev answered : List Bytes
answered = (1 ∷ 2 ∷ 9 ∷ []) ∷ (1 ∷ 2 ∷ 4 ∷ []) ∷ []

encrypted_again : transform_single under_first asked ≡ ok answered
unfolding transform_single
encrypted_again = refl

process_request-hides_example :
    (response : ServerResponse) × (process_request
        (hiding_server server_cipher)
        (hiding_request asked)
      ≡ ok response)
    × IsAscending str_ltb response.response_elements
    × ((x : Bytes) → Memᴰ x response.response_elements ↔ Memᴰ x answered)
process_request-hides_example = process_request-hides server_cipher asked answered encrypted_again

create-eq_example :
    (ys : List Bytes) × (Raw.create order_of unsorted ≡ some ys)
    × (length ys ≡ length unsorted)
    × ((k : ℕ) → k < length unsorted → get_or ys k [] ≡ get_or unsorted (get_or order_of k 0) [])
create-eq_example = create-eq unsorted order_of order_of-IsPermutation

create-IsAscending_example :
    (ys : List Bytes) × (Raw.create order_of unsorted ≡ some ys)
    × (length ys ≡ length unsorted)
    × IsAscending str_ltb ys
    × ((x : Bytes) → Memᴰ x ys ↔ Memᴰ x unsorted)
create-IsAscending_example = create-IsAscending order_of unsorted order_of-Orders

run-Raw_example :
    (s : ServerSetup) × (permutation : List ℕ) × (request : Request) × (response : ServerResponse)
    × (found : List ℕ) × (create_setup_message digest doubles
          (λ es. order_of)
          server
          10
          (pos 2)
          unsorted
          choose_raw
        ≡ some (ok (s, permutation)))
    × (create_request client both ≡ ok request)
    × (process_request server request ≡ ok response)
    × (get_intersection digest client s response ≡ some (ok found))
    × ((i : ℕ) → Memᴰ i found ↔ ((i < length both) × Memᴰ (get_or both i []) unsorted))
run-Raw_example =
    run-Raw client_cipher server_cipher commutes digest doubles (λ es. order_of) both unsorted 10
      (pos 2) keyed-Orders both-IsDistinct
