-- ===== src/Match/Slots/Find.antt =====
-- `FindInSetup` of private_set_intersection/cpp/psi_match.cpp: it ends, and finds what is there.
use Prim.Native.Nat.{lt, gt}
use open_mined_psi.Base.{
  ℕ, zero, suc, ◌+◌, ◌-◌, ◌*◌, ◌/◌, ◌^◌, ◌≤◌, ◌<◌, ◌≢◌, ◌≡◌, sym, ◌∙◌, false, Bytes, Option, none,
  some, arith, ltb, Bool-cases, inl, inr,
}
use open_mined_psi.Base.Order.{
  lex, lex-eq, lex_trans, Ordering-cases, lex-lt_of_gt, lex-gt_of_lt, lex-lt_ne,
}
use open_mined_psi.Match.Compare.{compare_elements-lex}
use open_mined_psi.Match.Slots.{SetupStore, setup_element, find_loop, find_in_setup}
use native.Mathlib.Nat.{pow-suc}

-- The slots in use are strictly ascending.
pub record IsAscending (s : SetupStore) : Type 0 where
  pub ascends :
      (i j : ℕ) → i < j → j < s.setup_count → lex (setup_element s i) (setup_element s j) ≡ lt

-- The answer is an index in use that holds the element, or no index in use holds it.
abbrev pub Finds : SetupStore → Bytes → Option (Option ℕ) → Type 0
Finds s e none = ⊥
Finds s e (some none) = (i : ℕ) → i < s.setup_count → setup_element s i ≢ e
Finds s e (some (some i)) = (i < s.setup_count) × (setup_element s i ≡ e)

module _ (s : SetupStore) (e : Bytes) (sorted : IsAscending s) where
  at_or_below :
      (mid : ℕ)
      → mid < s.setup_count
      → lex (setup_element s mid) e ≡ lt
      → (i : ℕ) → i < mid + 1
      → lex (setup_element s i) e ≡ lt
  at_or_below mid h k i p = elim (Bool-cases (ltb i mid)) [
    | inl less ↦
        lex_trans (setup_element s i) (setup_element s mid) e
          (sorted.ascends i mid (ground arith) h) k
    | inr same ↦ let here : i ≡ mid = ground arith in rw here k
  ]

  at_or_above :
      (mid : ℕ)
      → lex (setup_element s mid) e ≡ gt
      → (i : ℕ) → mid ≤ i
      → i < s.setup_count
      → lex (setup_element s i) e ≡ gt
  at_or_above mid k i p h = elim (Bool-cases (ltb mid i)) [
    | inl more ↦ lex-gt_of_lt e (setup_element s i) (
        lex_trans e (setup_element s mid) (setup_element s i)
          (lex-lt_of_gt (setup_element s mid) e k) (sorted.ascends mid i (ground arith) h))
    | inr same ↦ let here : i ≡ mid = ground arith in rw here k
  ]

  -- An empty range leaves the element nowhere.
  missed :
      (low high : ℕ)
      → high ≤ low
      → ((i : ℕ) → i < low → lex (setup_element s i) e ≡ lt)
      → ((i : ℕ) → high ≤ i → i < s.setup_count → lex (setup_element s i) e ≡ gt)
      → (i : ℕ) → i < s.setup_count
      → setup_element s i ≢ e
  missed low high le below above i h = elim (Bool-cases (ltb i low)) [
    | inl less ↦ lex-lt_ne (setup_element s i) e (below i (ground arith))
    | inr more ↦ λ same.
        lex-lt_ne e (setup_element s i)
          (lex-lt_of_gt (setup_element s i) e (above i (ground arith) h)) (sym same)
  ]

  find_loop-Finds :
      (k low high : ℕ)
      → high - low < 2 ^ k
      → high ≤ s.setup_count
      → ((i : ℕ) → i < low → lex (setup_element s i) e ≡ lt)
      → ((i : ℕ) → high ≤ i → i < s.setup_count → lex (setup_element s i) e ≡ gt)
      → Finds s e (find_loop s e (suc k) low high)
  unfolding find_loop
  find_loop-Finds zero low high narrow fits below above =
      let empty : ltb low high ≡ false = ground arith in
      rw (empty, find_loop) (missed low high (omega arith) below above)
  find_loop-Finds (suc k) low high narrow fits below above = elim (Bool-cases (ltb low high)) [
    | inr empty ↦ rw (empty, find_loop) (missed low high (ground arith) below above)
    | inl more ↦
        let mid = low + (high - low) / 2 in
        let inside : mid < s.setup_count = ground arith in
        let halved : 2 ^ suc k ≡ 2 ^ k * 2 = pow-suc 2 k in
        let met = compare_elements-lex (setup_element s mid) e in
        elim (Ordering-cases (lex (setup_element s mid) e)) [
          | inl less ↦
              rw (more, met ∙ less, find_loop)
                (find_loop-Finds k (mid + 1) high (ground arith) fits (at_or_below mid inside less)
                  above)
          | inr (inl same) ↦ rw (more, met ∙ same, find_loop) (inside, lex-eq _ _ same)
          | inr (inr over) ↦
              rw (more, met ∙ over, find_loop)
                (find_loop-Finds k low mid (ground arith) (omega arith) below
                  (at_or_above mid over))
        ]
  ]

  -- On strictly ascending slots, fewer than 2^32, the search ends and its answer is right.
  pub find_in_setup-Finds : s.setup_count < 2 ^ 32 → Finds s e (find_in_setup s e)
  unfolding find_in_setup
  find_in_setup-Finds small =
      find_loop-Finds 32 0 s.setup_count (omega arith) (omega arith) (λ i h. elim h [ ])
        (λ i p q. absurd (omega arith))
