-- ===== src/Match/Session/Position.antt =====
-- A search from the front, the specification of `FindInSetup` of
-- private_set_intersection/cpp/psi_match.cpp, and the matches of a list of decrypted elements.
use mathlib.Core.Option
use open_mined_psi.Base.{
  ℕ, zero, suc, ◌^◌, compare, ◌<◌, ◌≡◌, ◌≢◌, refl, sym, ap, ◌∙◌, true, Bytes, List, [], ◌∷◌, Option,
  none, some, length, get_or, arith, if◌then◌else◌, Bool-cases, inl, inr,
}
use open_mined_psi.Base.Order.{lex-eq, lex_refl, lex-lt_ne, str_eqb, Ordering-cases}
use open_mined_psi.Match.Slots.{SetupStore, find_in_setup}
use open_mined_psi.Match.Slots.Find.{Finds, find_in_setup-Finds}
use open_mined_psi.Match.Slots.Holds.{Holds}
use open_mined_psi.Match.Slots.Add.{IsSorted, Holds-IsAscending}

pub position : List Bytes → Bytes → Option ℕ
position [] p = none
position (e ∷ es) p = if str_eqb e p then some 0 else Option.map suc (position es p)

pub str_eqb_iff : (a b : Bytes) → (str_eqb a b ≡ true → a ≡ b) × (a ≡ b → str_eqb a b ≡ true)
str_eqb_iff a b = (λ h. lex-eq a b (ground arith), λ h. rw h (ground (arith, lex_refl b)))

abbrev pub Places : List Bytes → Bytes → Option ℕ → Type 0
Places es p none = (i : ℕ) → i < length es → get_or es i [] ≢ p
Places es p (some i) = (i < length es) × (get_or es i [] ≡ p)

Places-cons :
    (e : Bytes) (es : List Bytes) (p : Bytes) (o : Option ℕ)
    → e ≢ p
    → Places es p o
    → Places (e ∷ es) p (Option.map suc o)
Places-cons e es p (some i) apart (q, same) = (omega arith, same)
Places-cons e es p none apart h = λ i q. miss i q
  where
    miss : (i : ℕ) → i < suc (length es) → get_or (e ∷ es) i [] ≢ p
    miss zero q = apart
    miss (suc i) q = h i (omega arith)

pub position-Places : (es : List Bytes) (p : Bytes) → Places es p (position es p)
unfolding position
position-Places [] p = λ i h. elim h [ ]
position-Places (e ∷ es) p = elim (Bool-cases (str_eqb e p)) [
  | inl here ↦ rw here (omega arith, (str_eqb_iff e p).0 here)
  | inr apart ↦
      rw apart (
        Places-cons e es p (position es p) (λ h. cc ((str_eqb_iff e p).1 h)) (position-Places es p))
]

-- In a strictly ascending list an element stands once.
pub IsSorted-inj :
    (es : List Bytes) (i j : ℕ)
    → IsSorted es
    → i < length es
    → j < length es
    → get_or es i [] ≡ get_or es j []
    → i ≡ j
IsSorted-inj es i j sorted p q same = elim (Ordering-cases (compare i j)) [
  | inl less ↦
      absurd (lex-lt_ne (get_or es i []) (get_or es j []) (sorted i j (ground arith) q) same)
  | inr (inl equal) ↦ ground arith
  | inr (inr more) ↦
      absurd (lex-lt_ne (get_or es j []) (get_or es i []) (sorted j i (ground arith) p) (sym same))
]

-- On a store that holds a strictly ascending list the binary search answers as the search from the
-- front does.
pub find_in_setup-position :
    (s : SetupStore) (es : List Bytes) (p : Bytes)
    → Holds s es
    → IsSorted es
    → s.setup_count < 2 ^ 32
    → find_in_setup s p ≡ some (position es p)
find_in_setup-position s es p h sorted small =
    agree (find_in_setup s p) (find_in_setup-Finds s p (Holds-IsAscending s es h sorted) small)
      (position es p) (position-Places es p)
  where
    agree : (x : Option (Option ℕ)) → Finds s p x → (y : Option ℕ) → Places es p y → x ≡ some y
    agree none bad y q = absurd bad
    agree (some none) f none q = refl
    agree (some none) f (some i) (q, same) =
        absurd (f i (omega (arith, h.count_is)) (h.slots i (omega (arith, h.count_is)) ∙ same))
    agree (some (some j)) (f, same) none q =
        absurd (q j (omega (arith, h.count_is)) (sym (h.slots j f) ∙ same))
    agree (some (some j)) (f, same) (some i) (q, here) =
        ap (λ k. some (some k))
          (IsSorted-inj es j i sorted (omega (arith, h.count_is)) q
            (sym (h.slots j f) ∙ same ∙ sym here))
