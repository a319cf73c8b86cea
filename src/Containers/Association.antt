-- ===== src/Containers/Association.antt =====
-- `Raw::GetAssociationTable` of private_set_intersection/cpp/datastructure/raw.cpp. The inner loops end
-- where their index meets the size, so they take the size as fuel.
pub mod Rows
pub mod Skips
pub mod Loops
pub mod Pairs
pub mod Found
use open_mined_psi.Base.{
  ℕ, zero, suc, ◌+◌, true, false, ◌&&◌, Bytes, List, [], Option, none, some, length, get_or,
  push_back, ltb,
}
use open_mined_psi.Base.Order.{str_ltb, str_eqb}
use open_mined_psi.Containers.Raw
use open_mined_psi.Containers.Raw.{create}

-- The two vectors that the table is.
pub record Table : Type 0 where
  pub decrypted_permutation : List ℕ
  pub encrypted_permutation : List ℕ

abbrev pub push_pair : Table → ℕ → ℕ → Table
push_pair t a b = record {
  decrypted_permutation = push_back t.decrypted_permutation a;
  encrypted_permutation = push_back t.encrypted_permutation b;
}

module _ (encrypted decrypted : List Bytes) (permutation : List ℕ) where
  -- `while (i < decrypted.size() && decrypted[i] < encrypted_[j]) ++i`
  unfoldable pub skip_decrypted : ℕ → ℕ → ℕ → ℕ
  skip_decrypted zero i j = i
  skip_decrypted (suc fuel) i j =
      elim (ltb i (length decrypted) && str_ltb (get_or decrypted i []) (get_or encrypted j [])) [
        | true ↦ skip_decrypted fuel (i + 1) j
        | false ↦ i
      ]

  -- `while (j < encrypted_.size() && i < decrypted.size() && decrypted[i] > encrypted_[j]) ++j`
  unfoldable pub skip_encrypted : ℕ → ℕ → ℕ → ℕ
  skip_encrypted zero i j = j
  skip_encrypted (suc fuel) i j =
      elim (ltb j (length encrypted)
        && (ltb i (length decrypted) && str_ltb (get_or encrypted j []) (get_or decrypted i []))) [
          | true ↦ skip_encrypted fuel i (j + 1)
          | false ↦ j
        ]

  -- The `do` loop at `i`, from `j` on.
  unfoldable pub pair_equal : ℕ → ℕ → ℕ → Table → ℕ × Table
  pair_equal zero i j t = (j + 1, push_pair t (get_or permutation i 0) j)
  pair_equal (suc fuel) i j t =
      elim (ltb (j + 1) (length encrypted)
        && str_eqb (get_or decrypted i []) (get_or encrypted (j + 1) [])) [
          | true ↦ pair_equal fuel i (j + 1) (push_pair t (get_or permutation i 0) j)
          | false ↦ (j + 1, push_pair t (get_or permutation i 0) j)
        ]

  -- The `while (true)` loop over equal decrypted elements, which starts at `first_j` each time.
  unfoldable pub pair_duplicates : ℕ → ℕ → ℕ → Table → ℕ × ℕ × Table
  pair_duplicates zero i first_j t =
      let (j, t') = pair_equal (length encrypted) i first_j t in (i + 1, j, t')
  pair_duplicates (suc fuel) i first_j t =
      let (j, t') = pair_equal (length encrypted) i first_j t in
      elim (ltb (i + 1) (length decrypted)
        && str_eqb (get_or decrypted (i + 1) []) (get_or encrypted first_j [])) [
          | true ↦ pair_duplicates fuel (i + 1) first_j t'
          | false ↦ (i + 1, j, t')
        ]

  -- `if (decrypted[i] == encrypted_[j])` with its loop.
  unfoldable pub pair_at : ℕ → ℕ → Table → ℕ × ℕ × Table
  pair_at i j t = elim (str_eqb (get_or decrypted i []) (get_or encrypted j [])) [
    | true ↦ pair_duplicates (length decrypted) i j t
    | false ↦ (i, j, t)
  ]

  -- The outer loop on fuel; `none` where it runs out.
  unfoldable pub table_loop : ℕ → ℕ → ℕ → Table → Option Table
  table_loop zero i j t = none
  table_loop (suc fuel) i j t = elim (ltb i (length decrypted) && ltb j (length encrypted)) [
    | false ↦ some t
    | true ↦
        let i' = skip_decrypted (length decrypted) i j in
        elim (ltb i' (length decrypted)) [
          | false ↦ some t
          | true ↦
              let (i'', j', t') = pair_at i' j t in
              table_loop fuel i'' (skip_encrypted (length encrypted) i'' j') t'
        ]
  ]

-- `permutation` is what `std::sort` made of the indexes of `decrypted`. Each round but the last moves
-- an index, so the two sizes and one are fuel enough.
unfoldable pub get_association_table : List ℕ → List Bytes → List Bytes → Option Table
get_association_table permutation encrypted decrypted = elim (Raw.create permutation decrypted) [
  | none ↦ none
  | some sorted ↦
      table_loop encrypted sorted permutation (length encrypted + length sorted + 1) 0 0
        (record { decrypted_permutation = []; encrypted_permutation = [] })
]
