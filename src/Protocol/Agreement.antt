-- ===== src/Protocol/Agreement.antt =====
-- The client and the server of private_set_intersection/cpp together: what the client learns from a
-- setup and the server's answer to its request.
use mathlib.Core.List.{Memᴰ, map-id}
use open_mined_psi.Base.{
  ℕ, zero, suc, ◌<◌, ◌≡◌, ◌↔◌, refl, sym, ap, subst, ◌∙◌, true, Bytes, List, [], ◌∷◌, map, some,
  length, get_or, arith,
}
use open_mined_psi.Base.Order.{str_ltb}
use open_mined_psi.Base.Sort.{IsAscending}
use open_mined_psi.Status.{Result, ok}
use open_mined_psi.Parallel.{transform_single}
use open_mined_psi.Containers.Raw
use open_mined_psi.Containers.Raw.Found.{IsDistinct, mem-intersect}
use open_mined_psi.Protocol.{DataStructure, raw, ServerSetup, Request, ServerResponse, Cipher}
use open_mined_psi.Protocol.Messages.{raw_from_protobuf}
use open_mined_psi.Protocol.Client.{
  PsiClient, create_request, decrypt_response, intersect_with, process_response, get_intersection,
}
use open_mined_psi.Protocol.Server.{PsiServer, process_request}

pub transform_single-map :
    (op : Bytes → Result Bytes) (f g : Bytes → Bytes)
    → ((x : Bytes) → op (f x) ≡ ok (g x))
    → (xs : List Bytes) → transform_single op (map f xs) ≡ ok (map g xs)
unfolding transform_single
transform_single-map op f g h [] = refl
transform_single-map op f g h (x ∷ xs) =
    rw (h x, transform_single-map op f g h xs, transform_single)

pub length-map : (f : Bytes → Bytes) (xs : List Bytes) → length (map f xs) ≡ length xs
length-map f [] = refl
length-map f (x ∷ xs) = ap suc (length-map f xs)

pub get_or-map :
    (f : Bytes → Bytes) (xs : List Bytes) (i : ℕ)
    → i < length xs
    → get_or (map f xs) i [] ≡ f (get_or xs i [])
get_or-map f [] i h = elim h [ ]
get_or-map f (x ∷ xs) zero h = refl
get_or-map f (x ∷ xs) (suc i) h = get_or-map f xs i (omega arith)

-- What the commutative cipher promises for a client's key and a server's: an element that the client
-- encrypted and the server encrypted again decrypts to the element under the server's key, and
-- encryption loses nothing.
pub record Commutes (client server : Cipher) : Type 0 where
  pub once : Bytes → Bytes
  pub twice : Bytes → Bytes
  pub under_server : Bytes → Bytes
  pub client_encrypts : (x : Bytes) → client.encrypt x ≡ ok (once x)
  pub server_encrypts : (x : Bytes) → server.encrypt x ≡ ok (under_server x)
  pub server_re_encrypts : (x : Bytes) → server.re_encrypt (once x) ≡ ok (twice x)
  pub client_decrypts : (x : Bytes) → client.decrypt (twice x) ≡ ok (under_server x)
  pub injective : (x y : Bytes) → under_server x ≡ under_server y → x ≡ y

module _ (client server : Cipher) (law : Commutes client server) (inputs : List Bytes) where
  abbrev pub revealing_client : PsiClient
  revealing_client = record { ec_cipher = client; reveal_intersection = true }

  abbrev pub revealing_server : PsiServer
  revealing_server = record { ec_cipher = server; reveal_intersection = true }

  abbrev pub the_request : Request
  the_request = record {
    request_initialized = true;
    request_reveal = true;
    request_elements = map law.once inputs;
  }

  abbrev pub the_response : ServerResponse
  the_response = record { response_initialized = true; response_elements = map law.twice inputs }

  pub server_encrypted :
      (xs : List Bytes) → transform_single server.encrypt xs ≡ ok (map law.under_server xs)
  server_encrypted xs =
      subst (λ l. transform_single server.encrypt l ≡ ok (map law.under_server xs)) (map-id xs)
        (transform_single-map server.encrypt (λ x. x) law.under_server law.server_encrypts xs)

  request_made : create_request revealing_client inputs ≡ ok the_request
  unfolding create_request
  request_made = rw (encrypted, create_request)
    where
      encrypted : transform_single client.encrypt inputs ≡ ok (map law.once inputs)
      encrypted =
          subst (λ l. transform_single client.encrypt l ≡ ok (map law.once inputs)) (map-id inputs)
            (transform_single-map client.encrypt (λ x. x) law.once law.client_encrypts inputs)

  response_made : process_request revealing_server the_request ≡ ok the_response
  unfolding process_request
  response_made = rw (
    transform_single-map server.re_encrypt law.once law.twice law.server_re_encrypts inputs,
    process_request,
  )

  -- A setup that reached the client whole.
  abbrev pub setup_of : DataStructure → ServerSetup
  setup_of d = record { setup_initialized = true; data_structure = d }

  pub decrypted :
      (d : DataStructure)
      → decrypt_response revealing_client (setup_of d) the_response
        ≡ ok (map law.under_server inputs)
  unfolding decrypt_response
  decrypted d =
      transform_single-map client.decrypt law.twice law.under_server law.client_decrypts inputs

  -- The run of the protocol over a setup ends with what its data structure makes of the inputs under
  -- the server's key.
  pub run :
      (sha256 : Bytes → ℕ) (d : DataStructure)
      → (create_request revealing_client inputs ≡ ok the_request)
        × (process_request revealing_server the_request ≡ ok the_response)
        × (get_intersection sha256 revealing_client (setup_of d) the_response
            ≡ intersect_with sha256 (setup_of d) (map law.under_server inputs))
  unfolding get_intersection process_response
  run sha256 d = (request_made, response_made, rw (decrypted d, process_response))

  distinct : IsDistinct inputs → IsDistinct (map law.under_server inputs)
  distinct d i j h k e =
      let size = length-map law.under_server inputs in
      d i j (omega arith) (omega arith) (
        law.injective (get_or inputs i []) (get_or inputs j []) (
          sym (get_or-map law.under_server inputs i (omega arith))
          ∙ e
          ∙ get_or-map law.under_server inputs j (omega arith)))

  -- Over a `Raw` setup in ascending order, for distinct inputs and a cipher that commutes, the client's
  -- request is answered and the intersection holds exactly the indexes of the inputs that are in the
  -- setup under the server's key.
  pub get_intersection-Raw :
      (sha256 : Bytes → ℕ) (es : List Bytes)
      → IsAscending str_ltb es
      → IsDistinct inputs
      → (request : Request) × (response : ServerResponse) × (found : List ℕ) × (create_request
            revealing_client inputs
          ≡ ok request)
        × (process_request revealing_server request ≡ ok response)
        × (get_intersection sha256 revealing_client (setup_of (raw es)) response ≡ some (ok found))
        × ((i : ℕ)
            → Memᴰ i found
              ↔ ((i < length inputs) × Memᴰ (law.under_server (get_or inputs i [])) es))
  unfolding intersect_with raw_from_protobuf
  get_intersection-Raw sha256 es ascending d =
      let (asked, answered, ended) = run sha256 (raw es) in
      let size = length-map law.under_server inputs in
      (
        the_request,
        the_response,
        Raw.intersect es (map law.under_server inputs),
        asked,
        answered,
        ended,
        λ i.
            let (to, from) =
              mem-intersect es (map law.under_server inputs) ascending (distinct d) i in
            (
              λ m.
                  let (h, n) = to m in
                  (omega arith, rw (get_or-map law.under_server inputs i (omega arith)) at n),
              λ (h, n). from (omega arith, rw (get_or-map law.under_server inputs i h) n),
            ),
      )
