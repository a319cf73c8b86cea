-- ===== src/Containers/Raw/Merge.antt =====
-- What the linear merge of private_set_intersection/cpp/datastructure/raw.cpp finds.
use mathlib.Core.List.{Memᴰ}
use mathlib.Core.List.Memᴰ.{head, tail}
use open_mined_psi.Base.{
  ℕ, ◌≡◌, sym, ap, ◌∙◌, true, false, Bytes, List, [], ◌∷◌, arith, Bool-cases, inl, inr,
}
use open_mined_psi.Base.Order.{str_ltb, lex_refl, lex_swap, lex-eq}
use open_mined_psi.Base.Sort.{IsAscending}
use open_mined_psi.Containers.Raw.{Indexed, custom_set_intersection}

-- Strictly ascending by element.
abbrev pub IsRising : List Indexed → Type 0
IsRising [] = Unit
IsRising (p ∷ ps) = ((q : Indexed) → Memᴰ q ps → str_ltb p.0 q.0 ≡ true) × IsRising ps

pub str_ltb_irrefl : (a : Bytes) → str_ltb a a ≡ false
str_ltb_irrefl a = ground (arith, lex_refl a)

pub str_ltb_asym : (a b : Bytes) → str_ltb a b ≡ true → str_ltb b a ≡ false
str_ltb_asym a b h = ground (arith, lex_swap a b)

pub str_ltb_tri : (a b : Bytes) → str_ltb a b ≡ false → str_ltb b a ≡ false → a ≡ b
str_ltb_tri a b h k = lex-eq a b (ground (arith, lex_swap a b))

-- Nothing found that is not in both.
pub mem_of_merge :
    (ps : List Indexed) (es : List Bytes) (i : ℕ)
    → Memᴰ i (custom_set_intersection ps es)
    → (x : Bytes) × Memᴰ (x, i) ps × Memᴰ x es
unfolding custom_set_intersection
mem_of_merge [] es i m = elim m [ ]
mem_of_merge (p ∷ ps) [] i m = elim m [ ]
mem_of_merge (p ∷ ps) (e ∷ es) i m = elim (Bool-cases (str_ltb p.0 e)) [
  | inl behind ↦
      let (x, a, b) = mem_of_merge ps (e ∷ es) i (rw (behind, custom_set_intersection) at m) in
      (x, tail a, b)
  | inr ahead ↦ elim (Bool-cases (str_ltb e p.0)) [
    | inl above ↦
        let (x, a, b) =
          mem_of_merge (p ∷ ps) es i (rw (ahead, above, custom_set_intersection) at m) in
        (x, a, tail b)
    | inr same ↦ elim (rw (ahead, same, custom_set_intersection) at m) [
      | head here ↦ (p.0, head (ap (λ n. (p.0, n)) here), head (str_ltb_tri p.0 e ahead same))
      | tail m' ↦ let (x, a, b) = mem_of_merge ps es i m' in (x, tail a, tail b)
    ]
  ]
]

not_below_head :
    (e : Bytes) (es : List Bytes) (x : Bytes)
    → IsAscending str_ltb (e ∷ es)
    → Memᴰ x (e ∷ es)
    → str_ltb x e ≡ false
not_below_head e es x h (head same) = rw same (str_ltb_irrefl e)
not_below_head e es x h (tail m) = h.0 x m

not_below_first :
    (p : Indexed) (ps : List Indexed) (x : Bytes) (i : ℕ)
    → IsRising (p ∷ ps)
    → Memᴰ (x, i) (p ∷ ps)
    → str_ltb x p.0 ≡ false
not_below_first p ps x i h (head same) = rw (ap (λ (q : Indexed). q.0) same) (str_ltb_irrefl p.0)
not_below_first p ps x i h (tail m) = str_ltb_asym p.0 x (h.0 (x, i) m)

-- Everything in both is found.
pub mem-merge :
    (ps : List Indexed) (es : List Bytes) (x : Bytes) (i : ℕ)
    → IsRising ps
    → IsAscending str_ltb es
    → Memᴰ (x, i) ps
    → Memᴰ x es
    → Memᴰ i (custom_set_intersection ps es)
unfolding custom_set_intersection
mem-merge [] es x i h k m n = elim m [ ]
mem-merge (p ∷ ps) [] x i h k m n = elim n [ ]
mem-merge (p ∷ ps) (e ∷ es) x i h k m n = elim (Bool-cases (str_ltb p.0 e)) [
  | inl behind ↦
      rw (behind, custom_set_intersection)
        (elim m [
          | head here ↦
              let first : x ≡ p.0 = ap (λ (q : Indexed). q.0) here in
              absurd (cc (rw first at (not_below_head e es x k n), behind))
          | tail m' ↦ mem-merge ps (e ∷ es) x i h.1 k m' n
        ])
  | inr ahead ↦ elim (Bool-cases (str_ltb e p.0)) [
    | inl above ↦
        rw (ahead, above, custom_set_intersection)
          (elim n [
            | head here ↦ absurd (cc (rw here at (not_below_first p ps x i h m), above))
            | tail n' ↦ mem-merge (p ∷ ps) es x i h k.1 m n'
          ])
    | inr same ↦
        rw (ahead, same, custom_set_intersection)
          (elim m [
            | head here ↦ head (ap (λ (q : Indexed). q.1) here)
            | tail m' ↦ elim n [
              | head there ↦
                  let risen = h.0 (x, i) m' in
                  absurd (
                    cc (
                      rw (there ∙ sym (str_ltb_tri p.0 e ahead same)) at risen,
                      str_ltb_irrefl p.0,
                    ))
              | tail n' ↦ tail (mem-merge ps es x i h.1 k.1 m' n')
            ]
          ])
  ]
]
