-- ===== src/Tests/Compressed.antt =====
-- The Golomb compressed set at concrete inputs.
use mathlib.Core.List.{Memᴰ}
use mathlib.Core.List.Memᴰ.{head, tail}
use open_mined_psi.Base.{
  ℕ, ◌<◌, ◌≡◌, ◌↔◌, refl, Bytes, List, [], ◌∷◌, some, length, get_or, ltb, false, map, none, ap,
  ◌≤◌, arith,
}
use open_mined_psi.Base.Sort.{IsAscending, sort, insert}
use open_mined_psi.Base.Integer.{pos, larger}
use open_mined_psi.Status.{ok}
use open_mined_psi.Containers.Golomb.{GolombCompressed, div_of, golomb_compress, golomb_intersect}
use open_mined_psi.Containers.Golomb.Merge.{Entry, IsRising}
use open_mined_psi.Containers.Golomb.Values.{golomb_intersect-golomb_compress}
use open_mined_psi.Containers.Gcs
use open_mined_psi.Containers.Gcs.{Gcs, hash}
use open_mined_psi.Containers.Gcs.Found.{IsDefined, create-intersect}
use open_mined_psi.Protocol.{ServerSetup, Request, ServerResponse}
use open_mined_psi.Protocol.Client.{create_request, get_intersection}
use open_mined_psi.Protocol.Server.{choose_gcs, create_setup_message, process_request}
use open_mined_psi.Protocol.Compressed.{get_intersection-Gcs}
use open_mined_psi.Tests.Ciphers.{
  both, sealed, commutes, client_cipher, server_cipher, client, server, digest, doubles,
}

abbrev values : List ℕ
values = 3 ∷ 300 ∷ []

abbrev asked : List Entry
asked = (3, 1) ∷ (18, 0) ∷ []

values_ascend : IsAscending ltb values
values_ascend = (values_first, (λ b m. elim m [ ], tt))
  where
    values_first : (b : ℕ) → Memᴰ b (300 ∷ []) → ltb b 3 ≡ false
    values_first b (head e) = rw e refl
    values_first b (tail m) = elim m [ ]

asked_rise : IsRising asked
asked_rise = (asked_first, (λ b m. elim m [ ], tt))
  where
    asked_first : (b : Entry) → Memᴰ b ((18, 0) ∷ []) → 3 ≤ b.0
    asked_first b (head e) = let q : b.0 ≡ 18 = ap (λ (p : Entry). p.0) e in omega arith
    asked_first b (tail m) = elim m [ ]

div_is_three : div_of (λ last size. some 4) values (some 3) ≡ some 3
unfolding div_of
div_is_three = refl

golomb_intersect-golomb_compress_example :
    (c : GolombCompressed) × (golomb_compress (λ last size. some 4) values (some 3) ≡ some c)
    × (found : List ℕ) × (golomb_intersect c.compressed c.div asked ≡ some found)
    × ((i : ℕ) → Memᴰ i found ↔ ((v : ℕ) × Memᴰ (v, i) asked × Memᴰ v values))
golomb_intersect-golomb_compress_example =
    golomb_intersect-golomb_compress (λ last size. some 4) values (some 3) 3 asked div_is_three
      (omega arith) values_ascend asked_rise

defined_range : doubles.range_of (larger (pos 2) 2) 5 ≡ some 200
unfolding larger
defined_range = refl

defined_div : div_of doubles.estimate_div (sort ltb (map (hash digest 200) both)) none ≡ some 4
unfolding div_of sort insert hash
defined_div = refl

abbrev defined : IsDefined digest doubles 5 (pos 2) both
defined = record {
  range = 200;
  range_is = defined_range;
  range_ne = omega arith;
  div = 4;
  div_is = defined_div;
  div_below = omega arith;
}

sealed_defined_div :
    div_of doubles.estimate_div (sort ltb (map (hash digest 200) (map sealed both))) none ≡ some 4
unfolding div_of sort insert hash
sealed_defined_div = refl

abbrev sealed_defined : IsDefined digest doubles 5 (pos 2) (map sealed both)
sealed_defined = record {
  range = 200;
  range_is = defined_range;
  range_ne = omega arith;
  div = 4;
  div_is = sealed_defined_div;
  div_below = omega arith;
}

create-intersect_example :
    (g : Gcs) × (Gcs.create digest doubles 5 (pos 2) both ≡ some (ok g))
    × (g.gcs_div < 64)
    × ((xs : List Bytes)
        → (found : List ℕ) × (Gcs.intersect digest g xs ≡ some found)
          × ((i : ℕ)
              → Memᴰ i found ↔ (
                  (i < length xs)
                  × ((e : Bytes) × Memᴰ e both
                      × (hash digest g.hash_range (get_or xs i []) ≡ hash digest g.hash_range e)))))
create-intersect_example = create-intersect digest doubles 5 (pos 2) both refl defined

get_intersection-Gcs_example :
    (s : ServerSetup) × (request : Request) × (response : ServerResponse) × (found : List ℕ)
    × (create_setup_message digest doubles (λ es. []) server 10 (pos 2) both choose_gcs
        ≡ some (ok (s, [])))
    × (create_request client both ≡ ok request)
    × (process_request server request ≡ ok response)
    × (get_intersection digest client s response ≡ some (ok found))
    × ((i : ℕ) → i < length both → Memᴰ (get_or both i []) both → Memᴰ i found)
get_intersection-Gcs_example =
    get_intersection-Gcs client_cipher server_cipher commutes digest doubles (λ es. []) both both 10
      (pos 2) refl sealed_defined
