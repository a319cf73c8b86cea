-- ===== src/Match/Session/Tally.antt =====
-- The bit set `matched_setup_` of private_set_intersection/cpp/psi_match.cpp and its count.
use open_mined_psi.Base.{
  ℕ, zero, suc, ◌+◌, ◌*◌, ◌/◌, ◌%◌, ◌≤◌, ◌<◌, ◌≡◌, ◌≢◌, refl, sym, ap, ◌∙◌, List, [], ◌∷◌, length,
  get_or, set, replicate, arith, ◌==◌, Bool-cases, inl, inr, get_or-set_self, get_or-set_ne,
  get_or-replicate, length-set, length-replicate,
}
use open_mined_psi.Base.Bits.{
  bit, bit-zero, set_bit, bit-set_bit_self, bit-set_bit_ne, popcount-zero, popcount-set_bit,
}
use open_mined_psi.Match.Session.{mark, count_words}

-- Bit `i` of the set.
abbrev pub bit_at : List ℕ → ℕ → ℕ
bit_at words i = bit (i % 64) (get_or words (i / 64) 0)

-- The sum of `f` below `n`.
unfoldable pub sum_below : ℕ → (ℕ → ℕ) → ℕ
sum_below zero f = 0
sum_below (suc n) f = f n + sum_below n f

pub sum_below_ext :
    (n : ℕ) (f g : ℕ → ℕ) → ((i : ℕ) → i < n → f i ≡ g i) → sum_below n f ≡ sum_below n g
unfolding sum_below
sum_below_ext zero f g h = refl
sum_below_ext (suc n) f g h =
    omega (arith, h n (omega arith), sum_below_ext n f g (λ i p. h i (omega arith)))

-- A change of `f` at one place below `n`.
sum_below_change :
    (n j : ℕ) (f g : ℕ → ℕ)
    → j < n
    → g j ≡ 1
    → ((i : ℕ) → i ≢ j → g i ≡ f i)
    → sum_below n g + f j ≡ sum_below n f + 1
unfolding sum_below
sum_below_change zero j f g p here apart = elim p [ ]
sum_below_change (suc n) j f g p here apart = elim (Bool-cases (n == j)) [
  | inl last ↦
      let top : n ≡ j = ground arith in
      let below = sum_below_ext n g f (λ i q. apart i (omega arith)) in
      omega (arith, below, ap f top, ap g top)
  | inr more ↦
      omega (arith, apart n (ground arith), sum_below_change n j f g (ground arith) here apart)
]

pub bit_at-mark_self :
    (words : List ℕ) (i : ℕ) → i / 64 < length words → bit_at (mark words i) i ≡ 1
unfolding mark
bit_at-mark_self words i h =
    rw (get_or-set_self words (i / 64) (set_bit (i % 64) (get_or words (i / 64) 0)) 0 h)
      (bit-set_bit_self (i % 64) (get_or words (i / 64) 0))

pub bit_at-mark_ne :
    (words : List ℕ) (i j : ℕ)
    → i / 64 < length words
    → j ≢ i
    → bit_at (mark words i) j ≡ bit_at words j
unfolding mark
bit_at-mark_ne words i j h apart = elim (Bool-cases (j / 64 == i / 64)) [
  | inl same ↦
      let word : j / 64 ≡ i / 64 = ground arith in
      rw (word, get_or-set_self words (i / 64) (set_bit (i % 64) (get_or words (i / 64) 0)) 0 h)
        (bit-set_bit_ne (j % 64) (i % 64) (get_or words (i / 64) 0) (λ e. apart (omega arith)))
  | inr other ↦ ap (bit (j % 64)) (
      get_or-set_ne words (i / 64) (j / 64) (set_bit (i % 64) (get_or words (i / 64) 0)) 0
        (ground arith))
]

count_words-set :
    (words : List ℕ) (w k : ℕ)
    → w < length words
    → k < 64
    → count_words (set words w (set_bit k (get_or words w 0))) + bit k (get_or words w 0)
      ≡ count_words words + 1
unfolding count_words
count_words-set [] w k h b = elim h [ ]
count_words-set (x ∷ xs) zero k h b = omega (arith, popcount-set_bit 64 k x b)
count_words-set (x ∷ xs) (suc w) k h b = omega (arith, count_words-set xs w k (omega arith) b)

count_words-mark :
    (words : List ℕ) (i : ℕ)
    → i / 64 < length words
    → count_words (mark words i) + bit_at words i ≡ count_words words + 1
unfolding mark
count_words-mark words i h = count_words-set words (i / 64) (i % 64) h (omega arith)

-- The set has room for `n` bits, and its count is the number of them that are set.
pub record IsTally (n : ℕ) (words : List ℕ) : Type 0 where
  pub room : n ≤ 64 * length words
  pub counted : count_words words ≡ sum_below n (bit_at words)

pub mark-IsTally :
    (n : ℕ) (words : List ℕ) (i : ℕ) → i < n → IsTally n words → IsTally n (mark words i)
mark-IsTally n words i p t = record {
  room = omega (arith, t.room, length-mark);
  counted = omega (
    arith,
    t.counted,
    count_words-mark words i inside,
    sum_below_change n i (bit_at words) (bit_at (mark words i)) p (bit_at-mark_self words i inside)
        (λ j q. bit_at-mark_ne words i j inside q),
  );
}
  where
    inside : i / 64 < length words
    inside = omega (arith, t.room)

    length-mark : length (mark words i) ≡ length words
    length-mark = unfold mark in length-set words (i / 64) _

count_words-zeros : (k : ℕ) → count_words (replicate k 0) ≡ 0
unfolding count_words
count_words-zeros zero = refl
count_words-zeros (suc k) = omega (arith, popcount-zero 64, count_words-zeros k)

pub bit_at-zeros : (k i : ℕ) → bit_at (replicate k 0) i ≡ 0
bit_at-zeros k i = rw (get_or-replicate {A = ℕ} k (i / 64) 0) (bit-zero (i % 64))

sum_below-zero : (n : ℕ) (f : ℕ → ℕ) → ((i : ℕ) → f i ≡ 0) → sum_below n f ≡ 0
unfolding sum_below
sum_below-zero zero f h = refl
sum_below-zero (suc n) f h = omega (arith, h n, sum_below-zero n f h)

-- The set that `SealSetup` makes.
pub zeros-IsTally : (n : ℕ) → IsTally n (replicate ((n + 63) / 64) 0)
zeros-IsTally n = record {
  room = omega (arith, length-replicate {A = ℕ} ((n + 63) / 64) 0);
  counted =
      count_words-zeros ((n + 63) / 64)
      ∙ sym (sum_below-zero n _ (λ i. bit_at-zeros ((n + 63) / 64) i));
}
