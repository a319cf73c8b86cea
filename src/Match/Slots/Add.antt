-- ===== src/Match/Slots/Add.antt =====
-- `AddSetupElement` of private_set_intersection/cpp/psi_match.cpp: which elements it takes, and the
-- order that the slots keep.
use Prim.Native.Nat.{lt}
use open_mined_psi.Base.{
  ℕ, ◌-◌, ◌<◌, ◌≡◌, ◌↔◌, ap, ◌∙◌, false, Bytes, List, [], ◌∷◌, arith, ltb, ◌==◌, Bool-cases, inl,
  inr, length, length-append, get_or, push_back, get_or-append_left, get_or-append_length,
}
use open_mined_psi.Base.Order.{lex, lex_trans}
use open_mined_psi.Status.{done}
use open_mined_psi.Match.Compare.{compare_elements-lex}
use open_mined_psi.Match.Slots.{
  SetupStore, setup_element, write_slot, add_setup_element, not_below, max_elements,
}
use open_mined_psi.Match.Slots.Holds.{Holds}
use open_mined_psi.Match.Slots.Find.{IsAscending}

-- There is room, and the element comes after the last one.
abbrev pub Accepts : List Bytes → Bytes → Type 0
Accepts es e =
    (length es < max_elements) × (0 < length es → lex (get_or es (length es - 1) []) e ≡ lt)

-- Strictly ascending, by index.
abbrev pub IsSorted : List Bytes → Type 0
IsSorted es = (i j : ℕ) → i < j → j < length es → lex (get_or es i []) (get_or es j []) ≡ lt

module _ (s : SetupStore) (es : List Bytes) (e : Bytes) (h : Holds s es) where
  last_slot : 0 < s.setup_count → setup_element s (s.setup_count - 1) ≡ get_or es (length es - 1) []
  last_slot p =
      h.slots (s.setup_count - 1) (omega arith) ∙ ap (λ (n : ℕ). get_or es (n - 1) []) h.count_is

  not_below-lex :
      0 < s.setup_count
      → (not_below (setup_element s (s.setup_count - 1)) e ≡ false)
        ↔ (lex (get_or es (length es - 1) []) e ≡ lt)
  unfolding not_below
  not_below-lex p =
      rw (last_slot p) (ground (arith, compare_elements-lex (get_or es (length es - 1) []) e))

  pub add_setup_element-Accepts : Accepts es e → add_setup_element e s ≡ (done, write_slot s e)
  unfolding add_setup_element
  add_setup_element-Accepts (room, after) = elim (Bool-cases (ltb 0 s.setup_count)) [
    | inl some_slots ↦
        let fine = (not_below-lex (ground arith)).1 (after (ground (arith, h.count_is))) in
        ground (arith, h.count_is)
    | inr none_yet ↦ ground (arith, h.count_is)
  ]

  pub Accepts-of_done : (add_setup_element e s).0 ≡ done → Accepts es e
  unfolding add_setup_element
  Accepts-of_done ok = (
    ground (arith, h.count_is),
    λ p. (not_below-lex (omega (arith, h.count_is))).0 (ground (arith, h.count_is)),
  )

pub IsSorted-nil : IsSorted []
IsSorted-nil i j p q = elim q [ ]

pub IsSorted-push_back :
    (es : List Bytes) (e : Bytes) → IsSorted es → Accepts es e → IsSorted (push_back es e)
IsSorted-push_back es e sorted (room, after) i j p q =
    let size = length-append es (e ∷ []) in
    rw (get_or-append_left es (e ∷ []) i [] (omega arith)) (elim (Bool-cases (j == length es)) [
      | inl last ↦
          let here : j ≡ length es = ground arith in
          rw (here, get_or-append_length es [] e [])
            (elim (Bool-cases (i == length es - 1)) [
              | inl before ↦
                  let there : i ≡ length es - 1 = ground arith in rw there (after (omega arith))
              | inr earlier ↦
                  lex_trans (get_or es i []) (get_or es (length es - 1) []) e
                    (sorted i (length es - 1) (ground arith) (omega arith)) (after (omega arith))
            ])
      | inr old ↦
          rw (get_or-append_left es (e ∷ []) j [] (ground arith)) (sorted i j p (ground arith))
    ])

pub Holds-IsAscending :
    (s : SetupStore) (es : List Bytes) → Holds s es → IsSorted es → IsAscending s
Holds-IsAscending s es h sorted = record {
  ascends = λ i j p q.
      rw (h.slots i (omega arith), h.slots j q) (sorted i j p (omega (arith, h.count_is)));
}
