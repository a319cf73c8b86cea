-- ===== src/Protocol/Hidden.antt =====
-- The server of private_set_intersection/cpp/psi_server.cpp where the intersection is not revealed.
use mathlib.Core.List.{Memᴰ}
use open_mined_psi.Base.{◌≡◌, ◌↔◌, true, false, Bytes, List}
use open_mined_psi.Base.Order.{str_ltb}
use open_mined_psi.Base.Sort.{IsAscending, sort, mem-sort, sort-IsAscending}
use open_mined_psi.Status.{ok}
use open_mined_psi.Parallel.{transform_single}
use open_mined_psi.Containers.Raw.Found.{str_ltb-IsStrictWeak}
use open_mined_psi.Protocol.{Request, ServerResponse, Cipher}
use open_mined_psi.Protocol.Server.{PsiServer, process_request}

abbrev pub hiding_server : Cipher → PsiServer
hiding_server cipher = record { ec_cipher = cipher; reveal_intersection = false }

abbrev pub hiding_request : List Bytes → Request
hiding_request elements = record {
  request_initialized = true;
  request_reveal = false;
  request_elements = elements;
}

-- A server that hides the intersection and can encrypt every element of the request again answers with
-- what they encrypt to, in ascending order, and with nothing else.
pub process_request-hides :
    (cipher : Cipher) (elements answers : List Bytes)
    → transform_single cipher.re_encrypt elements ≡ ok answers
    → (response : ServerResponse) × (process_request
          (hiding_server cipher)
          (hiding_request elements)
        ≡ ok response)
      × IsAscending str_ltb response.response_elements
      × ((x : Bytes) → Memᴰ x response.response_elements ↔ Memᴰ x answers)
unfolding process_request
process_request-hides cipher elements answers h = (
  record { response_initialized = true; response_elements = sort str_ltb answers },
  rw (h, process_request),
  sort-IsAscending str_ltb str_ltb-IsStrictWeak answers,
  λ x. mem-sort str_ltb x answers,
)
