-- ===== src/Containers/Association/Skips.antt =====
-- The loops of `Raw::GetAssociationTable`, private_set_intersection/cpp/datastructure/raw.cpp: what
-- they pass without a pair.
use Prim.Native.Nat.{eq}
use open_mined_psi.Base.{
  ℕ, zero, suc, ◌+◌, ◌<◌, ◌≤◌, ◌≡◌, ◌≢◌, inl, inr, true, false, ◌&&◌, ltb, Bool-cases, Bytes, List,
  [], length, get_or, arith,
}
use open_mined_psi.Base.Order.{str_ltb, str_eqb, lex, lex_refl, lex-eq}
use open_mined_psi.Containers.Raw.Merge.{str_ltb_tri}
use open_mined_psi.Containers.Association.{skip_decrypted, skip_encrypted}

pub eq_of_str_eqb : (x y : Bytes) → str_eqb x y ≡ true → x ≡ y
eq_of_str_eqb x y h = lex-eq x y (ground arith)

pub ne_of_str_eqb : (x y : Bytes) → str_eqb x y ≡ false → x ≢ y
ne_of_str_eqb x y h e = let same : lex y y ≡ eq = lex_refl y in ground (arith, rw e at h, same)

-- In ascending order by index.
abbrev pub IsOrdered : List Bytes → Type 0
IsOrdered xs = (i j : ℕ) → i ≤ j → j < length xs → str_ltb (get_or xs j []) (get_or xs i []) ≡ false

-- Between two equal elements there is no other.
pub between :
    (xs : List Bytes) (i k j : ℕ)
    → IsOrdered xs
    → i ≤ k
    → k ≤ j
    → j < length xs
    → get_or xs i [] ≡ get_or xs j []
    → get_or xs k [] ≡ get_or xs i []
between xs i k j ordered a b h e =
    str_ltb_tri (get_or xs k []) (get_or xs i []) (ordered i k a (omega arith))
      (rw e (ordered k j b h))

module _ (encrypted decrypted : List Bytes) (permutation : List ℕ) where
  -- The elements that the loop passes are less than the one it waits for.
  pub skip_decrypted_lem :
      (fuel i j : ℕ)
      → length decrypted ≤ i + fuel
      → (i ≤ skip_decrypted encrypted decrypted permutation fuel i j)
        × ((p : ℕ)
            → i ≤ p
            → p < skip_decrypted encrypted decrypted permutation fuel i j
            → str_ltb (get_or decrypted p []) (get_or encrypted j []) ≡ true)
        × (skip_decrypted encrypted decrypted permutation fuel i j < length decrypted
            → str_ltb
                (get_or decrypted (skip_decrypted encrypted decrypted permutation fuel i j) [])
                (get_or encrypted j [])
              ≡ false)
  unfolding skip_decrypted
  skip_decrypted_lem zero i j h =
      (omega arith, (λ p a b. absurd (omega arith)), λ a. absurd (omega arith))
  skip_decrypted_lem (suc fuel) i j h =
      elim (Bool-cases
        (ltb i (length decrypted) && str_ltb (get_or decrypted i []) (get_or encrypted j []))) [
          | inl on ↦
              let (onward, passed, ends) = skip_decrypted_lem fuel (i + 1) j (omega arith) in
              rw (on, skip_decrypted)
                (
                  omega arith,
                  λ p a b. elim (Bool-cases (ltb i p)) [
                    | inl after ↦ passed p (ground (arith, after)) b
                    | inr not_after ↦
                        let e : p ≡ i = ground (arith, not_after) in rw e (ground (arith, on))
                  ],
                  ends,
                )
          | inr off ↦
              rw (off, skip_decrypted)
                (omega arith, (λ p a b. absurd (omega arith)), λ a. ground (arith, off))
        ]

  pub skip_encrypted_lem :
      (fuel i j : ℕ)
      → (j ≤ skip_encrypted encrypted decrypted permutation fuel i j)
        × ((q : ℕ)
            → j ≤ q
            → q < skip_encrypted encrypted decrypted permutation fuel i j
            → (i < length decrypted)
              × (str_ltb (get_or encrypted q []) (get_or decrypted i []) ≡ true))
        × (0 < fuel
            → j < length encrypted
            → i < length decrypted
            → str_ltb (get_or encrypted j []) (get_or decrypted i []) ≡ true
            → j < skip_encrypted encrypted decrypted permutation fuel i j)
  unfolding skip_encrypted
  skip_encrypted_lem zero i j =
      (omega arith, (λ q a b. absurd (omega arith)), λ f a b c. absurd (omega arith))
  skip_encrypted_lem (suc fuel) i j =
      elim (Bool-cases (
        ltb j (length encrypted)
        && (ltb i (length decrypted) && str_ltb (get_or encrypted j []) (get_or decrypted i [])))) [
          | inl on ↦
              let (onward, passed, moves) = skip_encrypted_lem fuel i (j + 1) in
              rw (on, skip_encrypted)
                (
                  omega arith,
                  λ q a b. elim (Bool-cases (ltb j q)) [
                    | inl after ↦ passed q (ground (arith, after)) b
                    | inr not_after ↦
                        let e : q ≡ j = ground (arith, not_after) in
                        rw e (ground (arith, on), ground (arith, on))
                  ],
                  λ f a b c. omega arith,
                )
          | inr off ↦
              rw (off, skip_encrypted)
                (
                  omega arith,
                  (λ q a b. absurd (omega arith)),
                  λ f a b c. absurd (ground (arith, off)),
                )
        ]
