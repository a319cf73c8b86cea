-- ===== src/Containers/Association/Loops.antt =====
-- The inner loops of `Raw::GetAssociationTable`, private_set_intersection/cpp/datastructure/raw.cpp, that
-- push pairs: where they end and what they push.
use open_mined_psi.Base.{
  ℕ, zero, suc, ◌+◌, ◌<◌, ◌≤◌, ◌≡◌, ◌≢◌, ◌⊎◌, inl, inr, refl, sym, subst, ◌∙◌, ◌&&◌, ltb,
  Bool-cases, Bytes, List, [], length, get_or, arith,
}
use open_mined_psi.Base.Order.{str_eqb}
use open_mined_psi.Containers.Association.{Table, push_pair, pair_equal, pair_duplicates}
use open_mined_psi.Containers.Association.Rows.{
  Matches, IsFilled, IsFilled-same, IsFilled-push_pair,
}
use open_mined_psi.Containers.Association.Skips.{IsOrdered, between, eq_of_str_eqb, ne_of_str_eqb}

module _ (encrypted decrypted : List Bytes) (permutation : List ℕ) where
  -- From indexes `i` and `j` on.
  abbrev pub From : ℕ → ℕ → ℕ → ℕ → Type 0
  From i j p q = (i ≤ p) × (j ≤ q)

  -- In row `i` from `j` on, and in later rows from `first_j` on.
  abbrev InRow : ℕ → ℕ → ℕ → ℕ → ℕ → Type 0
  InRow i first_j j p q = ((p ≡ i) × (j ≤ q)) ⊎ ((i < p) × (first_j ≤ q))

  module _ (ascending : IsOrdered encrypted)
      (once : (i j : ℕ)
        → i < length decrypted
        → j < length decrypted
        → get_or permutation i 0 ≡ get_or permutation j 0
        → i ≡ j) where
    pair_on :
        (i first_j j : ℕ) (t : Table)
        → first_j ≤ j
        → Matches encrypted decrypted permutation i j
        → IsFilled encrypted decrypted permutation (InRow i first_j j) t
        → IsFilled encrypted decrypted permutation
            (InRow i first_j (j + 1))
            (push_pair t (get_or permutation i 0) j)
    pair_on i first_j j t f here h =
        IsFilled-push_pair encrypted decrypted permutation once (InRow i first_j j)
          (InRow i first_j (j + 1)) t i j h here (inl (refl, omega arith))
          (λ l. elim l [ inl (e, k) ↦ absurd (omega arith) | inr (k, e) ↦ absurd (omega arith) ])
          (λ p q found l. elim l [
            | inl (e, k) ↦ elim (Bool-cases (ltb j q)) [
              | inl after ↦ inr (inl (e, ground (arith, after)))
              | inr not_after ↦ inl (e, ground (arith, not_after))
            ]
            | inr k ↦ inr (inr k)
          ])
          (λ p q found l. elim l [ inl (e, k) ↦ inl (e, omega arith) | inr k ↦ inr k ])

    pair_stops :
        (i first_j j : ℕ) (t : Table)
        → first_j ≤ j
        → Matches encrypted decrypted permutation i j
        → IsFilled encrypted decrypted permutation (InRow i first_j j) t
        → (j + 1 < length encrypted → get_or decrypted i [] ≢ get_or encrypted (j + 1) [])
        → IsFilled encrypted decrypted permutation
            (From (i + 1) first_j)
            (push_pair t (get_or permutation i 0) j)
    pair_stops i first_j j t f here h last =
        IsFilled-same encrypted decrypted permutation (InRow i first_j (j + 1))
          (From (i + 1) first_j) (push_pair t (get_or permutation i 0) j)
          (pair_on i first_j j t f here h)
          (λ p q found l. elim l [
            | inl (e, k) ↦
                let inside = found.right_inside in
                let same : get_or encrypted j [] ≡ get_or encrypted q [] =
                  sym here.equal
                  ∙ subst (λ n. get_or decrypted n [] ≡ get_or encrypted q []) e found.equal in
                absurd (
                  last (omega arith) (
                    here.equal
                    ∙ sym (between encrypted j (j + 1) q ascending (omega arith) k inside same)))
            | inr (k, e) ↦ (omega arith, e)
          ])
          (λ p q found (a, b). inr (omega arith, b))

    pub pair_equal_lem :
        (fuel i first_j j : ℕ) (t : Table)
        → first_j ≤ j
        → length encrypted ≤ j + fuel + 1
        → Matches encrypted decrypted permutation i j
        → IsFilled encrypted decrypted permutation (InRow i first_j j) t
        → (j < (pair_equal encrypted decrypted permutation fuel i j t).0)
          × ((q : ℕ)
              → j ≤ q
              → q < (pair_equal encrypted decrypted permutation fuel i j t).0
              → get_or decrypted i [] ≡ get_or encrypted q [])
          × IsFilled encrypted decrypted permutation
              (From (i + 1) first_j)
              (pair_equal encrypted decrypted permutation fuel i j t).1
    unfolding pair_equal
    pair_equal_lem zero i first_j j t f h here filled = (
      omega arith,
      λ q a b. let e : q ≡ j = omega arith in rw e here.equal,
      pair_stops i first_j j t f here filled (λ a. absurd (omega arith)),
    )
    pair_equal_lem (suc fuel) i first_j j t f h here filled =
        elim (Bool-cases (
          ltb (j + 1) (length encrypted)
          && str_eqb (get_or decrypted i []) (get_or encrypted (j + 1) []))) [
            | inl on ↦
                let next : Matches encrypted decrypted permutation i (j + 1) = record {
                  left_inside = here.left_inside;
                  right_inside = ground (arith, on);
                  equal =
                      eq_of_str_eqb (get_or decrypted i []) (get_or encrypted (j + 1) [])
                        (ground (arith, on));
                } in
                let (onward, equals, filled') =
                  pair_equal_lem fuel i first_j (j + 1) (push_pair t (get_or permutation i 0) j)
                    (omega arith) (omega arith) next (pair_on i first_j j t f here filled) in
                rw (on, pair_equal)
                  (
                    omega arith,
                    λ q a b. elim (Bool-cases (ltb j q)) [
                      | inl after ↦ equals q (ground (arith, after)) b
                      | inr not_after ↦ let e : q ≡ j = ground (arith, not_after) in rw e here.equal
                    ],
                    filled',
                  )
            | inr off ↦
                rw (off, pair_equal)
                  (
                    omega arith,
                    λ q a b. let e : q ≡ j = omega arith in rw e here.equal,
                    pair_stops i first_j j t f here filled (λ a.
                        ne_of_str_eqb (get_or decrypted i []) (get_or encrypted (j + 1) [])
                          (ground (arith, off))),
                  )
          ]

    module _ (sorted : IsOrdered decrypted) where
      row :
          (i first_j : ℕ) (t : Table)
          → Matches encrypted decrypted permutation i first_j
          → IsFilled encrypted decrypted permutation (From i first_j) t
          → (first_j
              < (pair_equal encrypted decrypted permutation (length encrypted) i first_j t).0)
            × ((q : ℕ)
                → first_j ≤ q
                → q < (pair_equal encrypted decrypted permutation (length encrypted) i first_j t).0
                → get_or decrypted i [] ≡ get_or encrypted q [])
            × IsFilled encrypted decrypted permutation
                (From (i + 1) first_j)
                (pair_equal encrypted decrypted permutation (length encrypted) i first_j t).1
      row i first_j t here h =
          pair_equal_lem (length encrypted) i first_j first_j t (omega arith) (omega arith) here (
            IsFilled-same encrypted decrypted permutation (From i first_j) (InRow i first_j first_j)
              t h
              (λ p q found (a, b). elim (Bool-cases (ltb i p)) [
                | inl after ↦ inr (ground (arith, after), b)
                | inr not_after ↦ inl (ground (arith, not_after), b)
              ])
              (λ p q found l. elim l [
                | inl (a, b) ↦ (omega arith, b)
                | inr (a, b) ↦ (omega arith, b)
              ]))

      rows_end :
          (i first_j : ℕ) (t : Table)
          → Matches encrypted decrypted permutation i first_j
          → IsFilled encrypted decrypted permutation (From i first_j) t
          → (i + 1 < length decrypted → get_or decrypted (i + 1) [] ≢ get_or encrypted first_j [])
          → IsFilled encrypted decrypted permutation
              (From
                (i + 1)
                (pair_equal encrypted decrypted permutation (length encrypted) i first_j t).0)
              (pair_equal encrypted decrypted permutation (length encrypted) i first_j t).1
      rows_end i first_j t here h last =
          let (onward, equals, filled) = row i first_j t here h in
          let end = (pair_equal encrypted decrypted permutation (length encrypted) i first_j t).0 in
          IsFilled-same encrypted decrypted permutation (From (i + 1) first_j) (From (i + 1) end)
            (pair_equal encrypted decrypted permutation (length encrypted) i first_j t).1 filled
            (λ p q found (a, b). elim (Bool-cases (ltb q end)) [
              | inl before ↦
                  let same : get_or decrypted i [] ≡ get_or decrypted p [] =
                    equals q b (ground (arith, before)) ∙ sym found.equal in
                  let inside = found.left_inside in
                  absurd (
                    last (omega arith) (
                      between decrypted i (i + 1) p sorted (omega arith) a inside same
                      ∙ here.equal))
              | inr not_before ↦ (a, ground (arith, not_before))
            ])
            (λ p q found (a, b). (a, omega arith))

      pub pair_duplicates_lem :
          (fuel i first_j : ℕ) (t : Table)
          → length decrypted ≤ i + fuel + 1
          → Matches encrypted decrypted permutation i first_j
          → IsFilled encrypted decrypted permutation (From i first_j) t
          → (i < (pair_duplicates encrypted decrypted permutation fuel i first_j t).0)
            × (first_j < (pair_duplicates encrypted decrypted permutation fuel i first_j t).1)
            × IsFilled encrypted decrypted permutation
                (From
                  (pair_duplicates encrypted decrypted permutation fuel i first_j t).0
                  (pair_duplicates encrypted decrypted permutation fuel i first_j t).1)
                (pair_duplicates encrypted decrypted permutation fuel i first_j t).2
      unfolding pair_duplicates
      pair_duplicates_lem zero i first_j t h here filled = (
        omega arith,
        (row i first_j t here filled).0,
        rows_end i first_j t here filled (λ a. absurd (omega arith)),
      )
      pair_duplicates_lem (suc fuel) i first_j t h here filled =
          elim (Bool-cases (
            ltb (i + 1) (length decrypted)
            && str_eqb (get_or decrypted (i + 1) []) (get_or encrypted first_j []))) [
              | inl on ↦
                  let next : Matches encrypted decrypted permutation (i + 1) first_j = record {
                    left_inside = ground (arith, on);
                    right_inside = here.right_inside;
                    equal =
                        eq_of_str_eqb (get_or decrypted (i + 1) []) (get_or encrypted first_j [])
                          (ground (arith, on));
                  } in
                  let (a, b, filled') =
                    pair_duplicates_lem fuel (i + 1) first_j
                      (pair_equal encrypted decrypted permutation (length encrypted) i first_j t).1
                      (omega arith) next (row i first_j t here filled).2 in
                  rw (on, pair_duplicates) (omega arith, b, filled')
              | inr off ↦
                  rw (off, pair_duplicates)
                    (
                      omega arith,
                      (row i first_j t here filled).0,
                      rows_end i first_j t here filled (λ a.
                          ne_of_str_eqb (get_or decrypted (i + 1) []) (get_or encrypted first_j [])
                            (ground (arith, off))),
                    )
            ]
