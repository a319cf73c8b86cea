-- ===== src/Containers/Association/Rows.antt =====
-- The table of `Raw::GetAssociationTable`, private_set_intersection/cpp/datastructure/raw.cpp, while it is
-- filled: which pairs it has, and which are left.
use mathlib.Core.List.{Memᴰ}
use mathlib.Core.List.Memᴰ.{head, tail}
use open_mined_psi.Base.{
  ℕ, ◌<◌, ◌≡◌, ◌⊎◌, inl, inr, refl, sym, ap, subst, Bytes, List, [], ◌∷◌, length, length-append,
  get_or, push_back, arith,
}
use open_mined_psi.Containers.Association.{Table, push_pair}

-- The two vectors side by side.
abbrev pub rows : List ℕ → List ℕ → List (ℕ × ℕ)
rows [] ys = []
rows (x ∷ xs) [] = []
rows (x ∷ xs) (y ∷ ys) = (x, y) ∷ rows xs ys

-- No row stands twice.
abbrev pub IsApart : List (ℕ × ℕ) → Type 0
IsApart [] = Unit
IsApart (r ∷ rs) = (¬ Memᴰ r rs) × IsApart rs

rows-push_back :
    (xs ys : List ℕ) (a b : ℕ)
    → length xs ≡ length ys
    → rows (push_back xs a) (push_back ys b) ≡ push_back (rows xs ys) (a, b)
rows-push_back [] [] a b h = refl
rows-push_back [] (y ∷ ys) a b h = absurd (omega arith)
rows-push_back (x ∷ xs) [] a b h = absurd (omega arith)
rows-push_back (x ∷ xs) (y ∷ ys) a b h = ap (◌∷◌ (x, y)) (rows-push_back xs ys a b (omega arith))

mem-push_back_old : (r s : ℕ × ℕ) (rs : List (ℕ × ℕ)) → Memᴰ r rs → Memᴰ r (push_back rs s)
mem-push_back_old r s [] m = elim m [ ]
mem-push_back_old r s (t ∷ rs) (head e) = head e
mem-push_back_old r s (t ∷ rs) (tail m) = tail (mem-push_back_old r s rs m)

mem-push_back_new : (s : ℕ × ℕ) (rs : List (ℕ × ℕ)) → Memᴰ s (push_back rs s)
mem-push_back_new s [] = head refl
mem-push_back_new s (t ∷ rs) = tail (mem-push_back_new s rs)

mem_of_push_back : (r s : ℕ × ℕ) (rs : List (ℕ × ℕ)) → Memᴰ r (push_back rs s) → Memᴰ r rs ⊎ (r ≡ s)
mem_of_push_back r s [] (head e) = inr e
mem_of_push_back r s [] (tail m) = elim m [ ]
mem_of_push_back r s (t ∷ rs) (head e) = inl (head e)
mem_of_push_back r s (t ∷ rs) (tail m) = elim (mem_of_push_back r s rs m) [
  | inl n ↦ inl (tail n)
  | inr e ↦ inr e
]

IsApart-push_back :
    (s : ℕ × ℕ) (rs : List (ℕ × ℕ)) → IsApart rs → ¬ Memᴰ s rs → IsApart (push_back rs s)
IsApart-push_back s [] h n = (λ m. elim m [ ], tt)
IsApart-push_back s (r ∷ rs) h n = (
  λ m. elim (mem_of_push_back r s rs m) [ inl old ↦ h.0 old | inr e ↦ n (head (sym e)) ],
  IsApart-push_back s rs h.1 (λ m. n (tail m)),
)

module _ (encrypted decrypted : List Bytes) (permutation : List ℕ) where
  -- Equal elements at index `p` of the decrypted ones and at index `q` of the encrypted.
  pub record Matches (p q : ℕ) : Type 0 where
    pub left_inside : p < length decrypted
    pub right_inside : q < length encrypted
    pub equal : get_or decrypted p [] ≡ get_or encrypted q []

  -- The table has a row for every match that is not left, once, and no other rows.
  pub record IsFilled (Left : ℕ → ℕ → Type 0) (t : Table) : Type 0 where
    pub sizes : length t.decrypted_permutation ≡ length t.encrypted_permutation
    pub apart : IsApart (rows t.decrypted_permutation t.encrypted_permutation)
    pub sound :
        (a b : ℕ)
        → Memᴰ (a, b) (rows t.decrypted_permutation t.encrypted_permutation)
        → (p : ℕ) × (a ≡ get_or permutation p 0) × Matches p b × ¬ Left p b
    pub complete :
        (p q : ℕ)
        → Matches p q
        → Memᴰ (get_or permutation p 0, q) (rows t.decrypted_permutation t.encrypted_permutation)
          ⊎ Left p q

  -- The same matches may be said to be left in another way.
  pub IsFilled-same :
      (L L' : ℕ → ℕ → Type 0) (t : Table)
      → IsFilled L t
      → ((p q : ℕ) → Matches p q → L p q → L' p q)
      → ((p q : ℕ) → Matches p q → L' p q → L p q)
      → IsFilled L' t
  IsFilled-same L L' t h to from = record {
    sizes = h.sizes;
    apart = h.apart;
    sound =
        λ a b m. let (p, e, found, n) = h.sound a b m in (p, e, found, λ l. n (from p b found l));
    complete =
        λ p q found. elim (h.complete p q found) [ inl m ↦ inl m | inr l ↦ inr (to p q found l) ];
  }

  -- A match that was left and is pushed is not left any more.
  pub IsFilled-push_pair :
      ((i j : ℕ)
        → i < length decrypted
        → j < length decrypted
        → get_or permutation i 0 ≡ get_or permutation j 0
        → i ≡ j)
      → (L L' : ℕ → ℕ → Type 0) (t : Table) (i j : ℕ) → IsFilled L t
      → Matches i j
      → L i j
      → ¬ L' i j
      → ((p q : ℕ) → Matches p q → L p q → ((p ≡ i) × (q ≡ j)) ⊎ L' p q)
      → ((p q : ℕ) → Matches p q → L' p q → L p q)
      → IsFilled L' (push_pair t (get_or permutation i 0) j)
  IsFilled-push_pair once L L' t i j h here l gone to from =
      let old = rows t.decrypted_permutation t.encrypted_permutation in
      let a = get_or permutation i 0 in
      let grown = rows-push_back t.decrypted_permutation t.encrypted_permutation a j h.sizes in
      let fresh : ¬ Memᴰ (a, j) old = λ m.
        let (p, e, found, n) = h.sound a j m in
        n (subst (λ k. L k j) (once i p here.left_inside found.left_inside e) l) in
      record {
        sizes = omega (
          arith,
          h.sizes,
          length-append t.decrypted_permutation (a ∷ []),
          length-append t.encrypted_permutation (j ∷ []),
        );
        apart = subst IsApart (sym grown) (IsApart-push_back (a, j) old h.apart fresh);
        sound = λ x y m.
            elim (mem_of_push_back (x, y) (a, j) old (subst (λ rs. Memᴰ (x, y) rs) grown m)) [
              | inl n ↦
                  let (p, e, found, g) = h.sound x y n in (p, e, found, λ k. g (from p y found k))
              | inr e ↦
                  let right : y ≡ j = ap (λ (r : ℕ × ℕ). r.1) e in
                  (
                    i,
                    ap (λ (r : ℕ × ℕ). r.0) e,
                    subst (λ k. Matches i k) (sym right) here,
                    subst (λ k. ¬ L' i k) (sym right) gone,
                  )
            ];
        complete = λ p q found. elim (h.complete p q found) [
          | inl m ↦ inl (
              subst (λ rs. Memᴰ (get_or permutation p 0, q) rs) (sym grown)
                (mem-push_back_old (get_or permutation p 0, q) (a, j) old m))
          | inr k ↦ elim (to p q found k) [
            | inl (at_i, at_j) ↦ inl (
                subst (λ rs. Memᴰ (get_or permutation p 0, q) rs) (sym grown)
                  (rw (at_i, at_j) (mem-push_back_new (a, j) old)))
            | inr k' ↦ inr k'
          ]
        ];
      }
