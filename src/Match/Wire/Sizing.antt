-- ===== src/Match/Wire/Sizing.antt =====
-- The size that `PsiMatch::Finish` of private_set_intersection/cpp/psi_match.cpp gives and the
-- intersection that `Raw::Intersect` of private_set_intersection/cpp/datastructure/raw.cpp gives.
use mathlib.Core.List.{Memᴰ}
use mathlib.Core.List.Memᴰ.{head, tail}
use open_mined_psi.Base.{
  ℕ, zero, suc, ◌+◌, ◌≡◌, refl, sym, ap, ◌∙◌, true, false, Bytes, List, [], ◌∷◌, map, length,
  get_or, arith, Bool-cases, inl, inr, ◌⊎◌,
}
use open_mined_psi.Base.Order.{str_ltb, str_eqb, lex_refl, lex_swap, lex_trans, lex-eq}
use open_mined_psi.Base.Sort.{sort, mem-sort}
use open_mined_psi.Base.Members.{index_of_mem}
use open_mined_psi.Containers.Raw.Weak.{IsWeak, sort-IsWeak}
use open_mined_psi.Match.Slots.Add.{IsSorted}
use open_mined_psi.Containers.Raw.{
  Indexed, pair_ltb, with_indices, custom_set_intersection, intersect,
}
use open_mined_psi.Containers.Raw.Merge.{str_ltb_tri}
use open_mined_psi.Match.Session.Tally.{sum_below}
use open_mined_psi.Match.Session.Matching.{occurs}

abbrev firsts : List Indexed → List Bytes
firsts ps = map (λ (p : Indexed). p.0) ps

-- The members of `es` among `ps`.
hits : List Bytes → List Bytes → ℕ
hits ps [] = 0
hits ps (e ∷ es) = occurs ps e + hits ps es

sum_below_first : (n : ℕ) (f : ℕ → ℕ) → sum_below (suc n) f ≡ f 0 + sum_below n (λ i. f (suc i))
unfolding sum_below
sum_below_first zero f = omega arith
sum_below_first (suc n) f = omega (arith, sum_below_first n f)

sum_below-hits :
    (ps es : List Bytes) → sum_below (length es) (λ i. occurs ps (get_or es i [])) ≡ hits ps es
unfolding hits sum_below
sum_below-hits ps [] = refl
sum_below-hits ps (e ∷ es) =
    sum_below_first (length es) (λ i. occurs ps (get_or (e ∷ es) i []))
    ∙ ap (λ n. occurs ps e + n) (sum_below-hits ps es)

str_eqb_less : (a b : Bytes) → str_ltb a b ≡ true → str_eqb a b ≡ false
str_eqb_less a b h = ground arith

str_eqb_more : (a b : Bytes) → str_ltb a b ≡ true → str_eqb b a ≡ false
str_eqb_more a b h = ground (arith, lex_swap a b)

less_trans : (a b c : Bytes) → str_ltb a b ≡ true → str_ltb b c ≡ true → str_ltb a c ≡ true
less_trans a b c h k = ground (arith, lex_trans a b c)

less_not_less : (a b c : Bytes) → str_ltb a b ≡ true → str_ltb c b ≡ false → str_ltb a c ≡ true
less_not_less a b c h k = elim (Bool-cases (str_ltb b c)) [
  | inl less ↦ less_trans a b c h less
  | inr more ↦ rw (sym (str_ltb_tri b c more k)) h
]

occurs_none :
    (ps : List Indexed) (e : Bytes)
    → ((q : Indexed) → Memᴰ q ps → str_ltb e q.0 ≡ true)
    → occurs (firsts ps) e ≡ 0
unfolding occurs
occurs_none [] e h = refl
occurs_none (p ∷ ps) e h =
    rw (str_eqb_less e p.0 (h p (head refl))) (occurs_none ps e (λ q m. h q (tail m)))

hits_drop :
    (p : Bytes) (ps es : List Bytes)
    → ((x : Bytes) → Memᴰ x es → str_ltb p x ≡ true)
    → hits (p ∷ ps) es ≡ hits ps es
unfolding hits occurs
hits_drop p ps [] h = refl
hits_drop p ps (e ∷ es) h =
    rw (str_eqb_more p e (h e (head refl)))
      (ap (λ n. occurs ps e + n) (hits_drop p ps es (λ x m. h x (tail m))))

-- Strictly ascending.
abbrev IsStrict : List Bytes → Type 0
IsStrict [] = Unit
IsStrict (e ∷ es) = ((x : Bytes) → Memᴰ x es → str_ltb e x ≡ true) × IsStrict es

zero_more : {n m : ℕ} → n ≡ 0 → m ≡ n + m
zero_more h = omega (arith, h)

one_more : {n m : ℕ} → n ≡ m → suc n ≡ 1 + m
one_more h = omega (arith, h)

-- The merge finds as many as there are members of `es` among the elements of the pairs.
length-custom_set_intersection :
    (ps : List Indexed) (es : List Bytes)
    → IsWeak ps
    → IsStrict es
    → length (custom_set_intersection ps es) ≡ hits (firsts ps) es
unfolding custom_set_intersection hits occurs
length-custom_set_intersection [] es h k = none_hit es
  where
    none_hit : (es : List Bytes) → 0 ≡ hits [] es
    none_hit [] = refl
    none_hit (e ∷ es) = omega (arith, none_hit es)
length-custom_set_intersection (p ∷ ps) [] h k = refl
length-custom_set_intersection (p ∷ ps) (e ∷ es) h k = elim (Bool-cases (str_ltb p.0 e)) [
  | inl behind ↦
      let all : (x : Bytes) → Memᴰ x (e ∷ es) → str_ltb p.0 x ≡ true = λ x m. elim m [
        | head same ↦ rw same behind
        | tail m' ↦ less_trans p.0 e x behind (k.0 x m')
      ] in
      rw (behind, custom_set_intersection)
        (length-custom_set_intersection ps (e ∷ es) h.1 k
          ∙ sym (hits_drop p.0 (firsts ps) (e ∷ es) all))
  | inr ahead ↦ elim (Bool-cases (str_ltb e p.0)) [
    | inl above ↦
        let absent = occurs_none (p ∷ ps) e (λ q m. elim m [
          | head same ↦ rw same above
          | tail m' ↦ less_not_less e p.0 q.0 above (h.0 q m')
        ]) in
        rw (ahead, above, custom_set_intersection)
          (length-custom_set_intersection (p ∷ ps) es h k.1 ∙ zero_more absent)
    | inr same ↦
        let equal : p.0 ≡ e = str_ltb_tri p.0 e ahead same in
        let found : str_eqb e p.0 ≡ true = rw equal (ground (arith, lex_refl e)) in
        let rest = hits_drop p.0 (firsts ps) es (λ x m. rw equal (k.0 x m)) in
        rw (ahead, same, found, custom_set_intersection)
          (one_more (length-custom_set_intersection ps es h.1 k.1 ∙ sym rest))
  ]
]

occurs-cases :
    (ps : List Bytes) (e : Bytes)
    → ((occurs ps e ≡ 1) × Memᴰ e ps) ⊎ ((occurs ps e ≡ 0) × ¬ Memᴰ e ps)
unfolding occurs
occurs-cases [] e = inr (refl, λ m. elim m [ ])
occurs-cases (p ∷ ps) e = elim (Bool-cases (str_eqb e p)) [
  | inl same ↦ inl (rw same refl, head (lex-eq e p (ground arith)))
  | inr apart ↦ elim (occurs-cases ps e) [
    | inl (one, m) ↦ inl (rw apart one, tail m)
    | inr (zero_there, out) ↦ inr (
      rw apart zero_there,
      λ m. elim m [
        | head same ↦
            let q : str_eqb e e ≡ false = rw (sym same) at apart in ground (arith, lex_refl e)
        | tail m' ↦ out m'
      ],
    )
  ]
]

occurs_same :
    (xs ys : List Bytes) (e : Bytes)
    → (Memᴰ e xs → Memᴰ e ys)
    → (Memᴰ e ys → Memᴰ e xs)
    → occurs xs e ≡ occurs ys e
occurs_same xs ys e f g = elim (occurs-cases xs e) [
  | inl (one, m) ↦ elim (occurs-cases ys e) [
    | inl (one', m') ↦ one ∙ sym one'
    | inr (zero_there, out) ↦ absurd (out (f m))
  ]
  | inr (zero_there, out) ↦ elim (occurs-cases ys e) [
    | inl (one, m) ↦ absurd (out (g m))
    | inr (zero_here, out') ↦ zero_there ∙ sym zero_here
  ]
]

hits_same :
    (xs ys es : List Bytes) → ((e : Bytes) → occurs xs e ≡ occurs ys e) → hits xs es ≡ hits ys es
unfolding hits
hits_same xs ys [] h = refl
hits_same xs ys (e ∷ es) h = omega (arith, h e, hits_same xs ys es h)

mem-firsts : (ps : List Indexed) (q : Indexed) → Memᴰ q ps → Memᴰ q.0 (firsts ps)
mem-firsts [] q m = elim m [ ]
mem-firsts (p ∷ ps) q (head same) = head (ap (λ (a : Indexed). a.0) same)
mem-firsts (p ∷ ps) q (tail m) = tail (mem-firsts ps q m)

mem_of_firsts :
    (ps : List Indexed) (x : Bytes) → Memᴰ x (firsts ps) → (q : Indexed) × Memᴰ q ps × (x ≡ q.0)
mem_of_firsts [] x m = elim m [ ]
mem_of_firsts (p ∷ ps) x (head same) = (p, head refl, same)
mem_of_firsts (p ∷ ps) x (tail m) = let (q, n, e) = mem_of_firsts ps x m in (q, tail n, e)

mem_through :
    (ps qs : List Indexed) (x : Bytes)
    → ((q : Indexed) → Memᴰ q ps → Memᴰ q qs)
    → Memᴰ x (firsts ps)
    → Memᴰ x (firsts qs)
mem_through ps qs x f m = let (q, n, e) = mem_of_firsts ps x m in rw e (mem-firsts qs q (f q n))

firsts-with_indices : (k : ℕ) (xs : List Bytes) → firsts (with_indices k xs) ≡ xs
unfolding with_indices
firsts-with_indices k [] = refl
firsts-with_indices k (x ∷ xs) = ap (◌∷◌ x) (firsts-with_indices (k + 1) xs)

IsStrict-of_sorted : (es : List Bytes) → IsSorted es → IsStrict es
IsStrict-of_sorted [] h = tt
IsStrict-of_sorted (e ∷ es) h = (
  λ x m.
      let (i, q, same) = index_of_mem es x [] m in
      rw (sym same) (ground (arith, h 0 (suc i) (omega arith) (omega arith))),
  IsStrict-of_sorted es (λ i j p q. h (suc i) (suc j) (omega arith) (omega arith)),
)

-- Over a strictly ascending setup the merge of the sorted elements `ps` finds as many as there are setup
-- elements among them.
pub length-intersect :
    (es ps : List Bytes)
    → IsSorted es
    → length (intersect es ps) ≡ sum_below (length es) (λ i. occurs ps (get_or es i []))
unfolding intersect
length-intersect es ps sorted =
    let pairs = with_indices 0 ps in
    let found =
      length-custom_set_intersection (sort pair_ltb pairs) es (sort-IsWeak pairs)
        (IsStrict-of_sorted es sorted) in
    let same = hits_same (firsts (sort pair_ltb pairs)) (firsts pairs) es (λ e.
      occurs_same (firsts (sort pair_ltb pairs)) (firsts pairs) e
        (mem_through (sort pair_ltb pairs) pairs e (λ q m. (mem-sort pair_ltb q pairs).0 m))
        (mem_through pairs (sort pair_ltb pairs) e (λ q m. (mem-sort pair_ltb q pairs).1 m))) in
    found ∙ same ∙ ap (λ xs. hits xs es) (firsts-with_indices 0 ps) ∙ sym (sum_below-hits ps es)
