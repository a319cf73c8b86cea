-- ===== src/Containers/Association/Pairs.antt =====
-- `Raw::GetAssociationTable` of private_set_intersection/cpp/datastructure/raw.cpp lists the pairs of equal
-- elements.
use open_mined_psi.Base.{
  ℕ, zero, suc, ◌+◌, ◌-◌, ◌<◌, ◌≤◌, ◌≡◌, ◌≢◌, inl, inr, refl, sym, subst, true, false, ◌&&◌, ltb,
  Bool-cases, Bytes, List, [], some, length, get_or, arith,
}
use open_mined_psi.Base.Order.{str_ltb, str_eqb}
use open_mined_psi.Containers.Raw.Merge.{str_ltb_tri}
use open_mined_psi.Containers.Association.{
  Table, skip_decrypted, skip_encrypted, pair_at, pair_duplicates, table_loop,
}
use open_mined_psi.Containers.Association.Rows.{IsFilled, IsFilled-same}
use open_mined_psi.Containers.Association.Skips.{
  IsOrdered, skip_decrypted_lem, skip_encrypted_lem, eq_of_str_eqb, ne_of_str_eqb,
}
use open_mined_psi.Containers.Association.Loops.{From, pair_duplicates_lem}

less_ne : (x y z : Bytes) → str_ltb x y ≡ true → str_ltb z y ≡ false → x ≢ z
less_ne x y z h k e = cc (h, subst (λ b. str_ltb b y ≡ false) (sym e) k)

module _ (encrypted decrypted : List Bytes) (permutation : List ℕ) (ascending : IsOrdered encrypted)
    (sorted : IsOrdered decrypted)
    (once : (i j : ℕ)
      → i < length decrypted
      → j < length decrypted
      → get_or permutation i 0 ≡ get_or permutation j 0
      → i ≡ j) where
  abbrev Filled : ℕ → ℕ → Table → Type 0
  Filled i j t =
      IsFilled encrypted decrypted permutation (From encrypted decrypted permutation i j) t

  abbrev ahead : ℕ → ℕ → ℕ
  ahead i j = skip_decrypted encrypted decrypted permutation (length decrypted) i j

  abbrev beyond : ℕ → ℕ → ℕ
  beyond i j = skip_encrypted encrypted decrypted permutation (length encrypted) i j

  ahead-Filled : (i j : ℕ) (t : Table) → Filled i j t → Filled (ahead i j) j t
  ahead-Filled i j t h =
      let (onward, passed, _) =
        skip_decrypted_lem encrypted decrypted permutation (length decrypted) i j (omega arith) in
      IsFilled-same encrypted decrypted permutation (From encrypted decrypted permutation i j)
        (From encrypted decrypted permutation (ahead i j) j) t h
        (λ p q found (a, b). elim (Bool-cases (ltb p (ahead i j))) [
          | inl before ↦ absurd (
              less_ne (get_or decrypted p []) (get_or encrypted j []) (get_or encrypted q [])
                (passed p a (ground (arith, before))) (ascending j q b found.right_inside)
                found.equal)
          | inr not_before ↦ (ground (arith, not_before), b)
        ])
        (λ p q found (a, b). (omega arith, b))

  beyond-Filled : (i j : ℕ) (t : Table) → Filled i j t → Filled i (beyond i j) t
  beyond-Filled i j t h =
      let (onward, passed, _) =
        skip_encrypted_lem encrypted decrypted permutation (length encrypted) i j in
      IsFilled-same encrypted decrypted permutation (From encrypted decrypted permutation i j)
        (From encrypted decrypted permutation i (beyond i j)) t h
        (λ p q found (a, b). elim (Bool-cases (ltb q (beyond i j))) [
          | inl before ↦ absurd (
              less_ne (get_or encrypted q []) (get_or decrypted i []) (get_or decrypted p [])
                (passed q b (ground (arith, before))).1 (sorted i p a found.left_inside)
                (sym found.equal))
          | inr not_before ↦ (a, ground (arith, not_before))
        ])
        (λ p q found (a, b). (a, omega arith))

  over :
      (i j : ℕ) (t : Table)
      → Filled i j t
      → (ltb i (length decrypted) && ltb j (length encrypted)) ≡ false
      → Filled (length decrypted) (length encrypted) t
  over i j t h off =
      IsFilled-same encrypted decrypted permutation (From encrypted decrypted permutation i j)
        (From encrypted decrypted permutation (length decrypted) (length encrypted)) t h
        (λ p q found (a, b).
          let c = found.left_inside in let d = found.right_inside in absurd (ground (arith, off)))
        (λ p q found (a, b). let c = found.left_inside in absurd (omega arith))

  -- The pairs at `i` and `j`, and the encrypted elements passed behind them.
  pair_at-Filled :
      (i j : ℕ) (t : Table)
      → i < length decrypted
      → j < length encrypted
      → str_ltb (get_or decrypted i []) (get_or encrypted j []) ≡ false
      → Filled i j t
      → (i ≤ (pair_at encrypted decrypted permutation i j t).0)
        × (j
            < beyond
                (pair_at encrypted decrypted permutation i j t).0
                (pair_at encrypted decrypted permutation i j t).1)
        × Filled
            (pair_at encrypted decrypted permutation i j t).0
            (beyond
              (pair_at encrypted decrypted permutation i j t).0
              (pair_at encrypted decrypted permutation i j t).1)
            (pair_at encrypted decrypted permutation i j t).2
  unfolding pair_at
  pair_at-Filled i j t a b above h =
      elim (Bool-cases (str_eqb (get_or decrypted i []) (get_or encrypted j []))) [
        | inl same ↦
            let (onward, further, filled) =
              pair_duplicates_lem encrypted decrypted permutation ascending once sorted
                (length decrypted) i j t (omega arith)
                (record {
                  left_inside = a;
                  right_inside = b;
                  equal = eq_of_str_eqb (get_or decrypted i []) (get_or encrypted j []) same;
                })
                h in
            let r = pair_duplicates encrypted decrypted permutation (length decrypted) i j t in
            let moves =
              (skip_encrypted_lem encrypted decrypted permutation (length encrypted) r.0 r.1).0 in
            rw (same, pair_at) (omega arith, omega arith, beyond-Filled r.0 r.1 r.2 filled)
        | inr differ ↦
            let below : str_ltb (get_or encrypted j []) (get_or decrypted i []) ≡ true =
              elim (Bool-cases (str_ltb (get_or encrypted j []) (get_or decrypted i []))) [
                | inl k ↦ k
                | inr k ↦ absurd (
                    ne_of_str_eqb (get_or decrypted i []) (get_or encrypted j []) differ
                      (str_ltb_tri (get_or decrypted i []) (get_or encrypted j []) above k))
              ] in
            rw (differ, pair_at)
              (
                omega arith,
                (skip_encrypted_lem encrypted decrypted permutation (length encrypted) i j).2
                    (omega arith) b a below,
                beyond-Filled i j t h,
              )
      ]

  pub table_loop-Filled :
      (fuel i j : ℕ) (t : Table)
      → length decrypted - i + (length encrypted - j) < fuel
      → Filled i j t
      → (t' : Table) × (table_loop encrypted decrypted permutation fuel i j t ≡ some t')
        × Filled (length decrypted) (length encrypted) t'
  unfolding table_loop
  table_loop-Filled zero i j t h filled = absurd (omega arith)
  table_loop-Filled (suc fuel) i j t h filled =
      elim (Bool-cases (ltb i (length decrypted) && ltb j (length encrypted))) [
        | inr off ↦ (t, rw (off, table_loop) refl, over i j t filled off)
        | inl on ↦
            let inside : j < length encrypted = ground (arith, on) in
            let (onward, _, above) =
              skip_decrypted_lem encrypted decrypted permutation (length decrypted) i j
                (omega arith) in
            let filled' = ahead-Filled i j t filled in
            elim (Bool-cases (ltb (ahead i j) (length decrypted))) [
              | inr off ↦ (
                t,
                rw (on, table_loop) (rw off refl),
                over (ahead i j) j t filled' (ground (arith, off)),
              )
              | inl here ↦
                  let (a, b, filled'') =
                    pair_at-Filled (ahead i j) j t (ground (arith, here)) inside
                      (above (ground (arith, here))) filled' in
                  let r = pair_at encrypted decrypted permutation (ahead i j) j t in
                  let before : i < length decrypted = ground (arith, on) in
                  let (t', ran, done) =
                    table_loop-Filled fuel r.0 (beyond r.0 r.1) r.2 (omega arith) filled'' in
                  (t', rw (on, table_loop) (rw here ran), done)
            ]
      ]
