-- ===== src/Tests/Containers.antt =====
-- The containers of private_set_intersection/cpp/datastructure at concrete inputs.
use open_mined_psi.Base.{◌≡◌, refl, [], ◌∷◌, List, ℕ, some}
use open_mined_psi.Base.Order.{lex}
use open_mined_psi.Containers.Raw
use open_mined_psi.Containers.Raw.{cycle_sort, move_cycle}
use open_mined_psi.Containers.Association.{
  get_association_table, table_loop, pair_at, pair_duplicates, pair_equal, skip_encrypted,
  skip_decrypted,
}
use open_mined_psi.Containers.Golomb.{
  compress_with, compress_from, write_delta, write_remainder, golomb_intersect, intersect_loop,
  skip_empty, read_delta, read_remainder, ctz, drop_below, take_equal,
}

abbrev values : List ℕ
values = 3 ∷ 3 ∷ 17 ∷ 40 ∷ 300 ∷ []

compressed_values : (compress_with 3 values).compressed ≡ 167 ∷ 121 ∷ 0 ∷ 0 ∷ 0 ∷ 128 ∷ 4 ∷ []
unfolding compress_with compress_from write_delta write_remainder
compressed_values = refl

common_values :
    golomb_intersect
      (compress_with 11 values).compressed
      11
      ((2, 0) ∷ (3, 1) ∷ (17, 2) ∷ (18, 3) ∷ (300, 4) ∷ (300, 5) ∷ (301, 6) ∷ [])
    ≡ some (1 ∷ 2 ∷ 4 ∷ 5 ∷ [])
unfolding compress_with compress_from write_delta write_remainder golomb_intersect intersect_loop
    skip_empty read_delta read_remainder ctz drop_below take_equal
common_values = refl

-- Equal elements on both sides give every pair.
pairs_of_duplicates :
    get_association_table
      (1 ∷ 0 ∷ 2 ∷ [])
      ((2 ∷ []) ∷ (5 ∷ []) ∷ (5 ∷ []) ∷ (8 ∷ []) ∷ [])
      ((5 ∷ []) ∷ (4 ∷ []) ∷ (5 ∷ []) ∷ [])
    ≡ some (record {
      decrypted_permutation = 0 ∷ 0 ∷ 2 ∷ 2 ∷ [];
      encrypted_permutation = 1 ∷ 2 ∷ 1 ∷ 2 ∷ [];
    })
unfolding get_association_table table_loop pair_at pair_duplicates pair_equal skip_encrypted
    skip_decrypted Raw.create cycle_sort move_cycle lex
pairs_of_duplicates = refl
