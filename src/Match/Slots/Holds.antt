-- ===== src/Match/Slots/Holds.antt =====
-- The slots of private_set_intersection/cpp/psi_match.cpp hold a list of elements.
use open_mined_psi.Base.{
  ℕ, ◌+◌, ◌*◌, ◌/◌, ◌%◌, ◌≤◌, ◌<◌, ◌≡◌, refl, sym, ap, ◌∙◌, true, false, Bytes, List, [], ◌∷◌,
  arith, ◌==◌, Bool-cases, inl, inr, length, length-append, get_or, push_back, get_or-set_self,
  get_or-set_ne, get_or-append_left, get_or-append_length, length-set, if◌then◌else◌,
}
use open_mined_psi.Match.Slots.{SetupStore, no_setup, setup_element, write_slot}
use open_mined_psi.Match.Slots.Memory.{
  Block, zero_block, update, memcpy, memcpy_outside, read-memcpy_self, read_ext,
}

-- The block and the length byte of slot `i`.
abbrev block_of : SetupStore → ℕ → Block
block_of s i = get_or s.setup_blocks (i / 65536) zero_block

abbrev size_of : SetupStore → ℕ → ℕ
size_of s i = block_of s i (i % 65536 * 34)

-- The store holds `es`, in order, one slot each.
pub record Holds (s : SetupStore) (es : List Bytes) : Type 0 where
  pub count_is : s.setup_count ≡ length es
  pub blocks_are : length s.setup_blocks ≡ (s.setup_count + 65535) / 65536
  pub slots : (i : ℕ) → i < s.setup_count → setup_element s i ≡ get_or es i []
  pub short : (i : ℕ) → i < s.setup_count → size_of s i ≤ 33

pub no_setup-Holds : Holds no_setup []
no_setup-Holds = record {
  count_is = refl;
  blocks_are = refl;
  slots = λ i h. elim h [ ];
  short = λ i h. elim h [ ];
}

-- The blocks before the write.
abbrev grown : SetupStore → List Block
grown s =
    let block = s.setup_count / 65536 in
    if block == length s.setup_blocks then push_back s.setup_blocks zero_block else s.setup_blocks

module _ (s : SetupStore) (es : List Bytes) (h : Holds s es) (e : Bytes)
    (fits : length e ≤ 33) where
  abbrev at : ℕ
  at = s.setup_count % 65536 * 34

  abbrev target : Block
  target = get_or (grown s) (s.setup_count / 65536) zero_block

  abbrev written : Block
  written = memcpy (update target at (length e % 256)) (at + 1) e

  grown_room : s.setup_count / 65536 < length (grown s)
  grown_room = elim (Bool-cases (s.setup_count / 65536 == length s.setup_blocks)) [
    | inl new ↦ rw new (ground (arith, length-append s.setup_blocks (zero_block ∷ [])))
    | inr old ↦ rw old (ground (arith, h.blocks_are))
  ]

  grown_old :
      (i : ℕ)
      → i < s.setup_count
      → get_or (grown s) (i / 65536) zero_block ≡ get_or s.setup_blocks (i / 65536) zero_block
  grown_old i p = elim (Bool-cases (s.setup_count / 65536 == length s.setup_blocks)) [
    | inl new ↦ rw new (
        get_or-append_left s.setup_blocks (zero_block ∷ []) (i / 65536) zero_block
          (omega (arith, h.blocks_are)))
    | inr old ↦ rw old
  ]

  written_length : written at ≡ length e
  unfolding update
  written_length =
      let same : (at == at) ≡ true = ground arith in
      (memcpy_outside (update target at (length e % 256)) (at + 1) e at).0 (omega arith)
      ∙ rw same (omega arith)

  written_other : (i : ℕ) → i < at → written i ≡ target i
  unfolding update
  written_other i below =
      let apart : (i == at) ≡ false = ground arith in
      (memcpy_outside (update target at (length e % 256)) (at + 1) e i).0 (omega arith) ∙ rw apart

  -- The new slot's block, and an old slot's.
  block_new : block_of (write_slot s e) s.setup_count ≡ written
  unfolding write_slot
  block_new = get_or-set_self (grown s) (s.setup_count / 65536) written zero_block grown_room

  block_old :
      (i : ℕ)
      → i < s.setup_count
      → (j : ℕ) → j < i % 65536 * 34 + 34
      → block_of (write_slot s e) i j ≡ block_of s i j
  unfolding write_slot
  block_old i p j q = elim (Bool-cases (i / 65536 == s.setup_count / 65536)) [
    | inl same ↦
        let here : i / 65536 ≡ s.setup_count / 65536 = ground arith in
        rw here (
          ap (λ (b : Block). b j) block_new
          ∙ written_other j (omega arith)
          ∙ ap (λ (b : Block). b j) (rw here at (grown_old i p)))
    | inr apart ↦
        ap (λ (b : Block). b j)
          (get_or-set_ne (grown s) (s.setup_count / 65536) (i / 65536) written zero_block
              (ground arith)
            ∙ grown_old i p)
  ]

  slot_new : setup_element (write_slot s e) s.setup_count ≡ e
  unfolding setup_element
  slot_new =
      rw (block_new, written_length)
        (read-memcpy_self (update target at (length e % 256)) (at + 1) e)

  slot_old : (i : ℕ) → i < s.setup_count → setup_element (write_slot s e) i ≡ setup_element s i
  unfolding setup_element
  slot_old i p = rw (block_old i p (i % 65536 * 34) (omega arith)) (
      read_ext (block_of (write_slot s e) i) (block_of s i) (i % 65536 * 34 + 1) (size_of s i)
        (λ j a b. block_old i p j (omega (arith, h.short i p))))

  count_new : (write_slot s e).setup_count ≡ s.setup_count + 1
  unfolding write_slot
  count_new = refl

  blocks_new : length (write_slot s e).setup_blocks ≡ (s.setup_count + 1 + 65535) / 65536
  unfolding write_slot
  blocks_new =
      length-set (grown s) (s.setup_count / 65536) written
      ∙ elim (Bool-cases (s.setup_count / 65536 == length s.setup_blocks)) [
        | inl new ↦
            rw new (ground (arith, length-append s.setup_blocks (zero_block ∷ []), h.blocks_are))
        | inr old ↦ rw old (ground (arith, h.blocks_are))
      ]

  -- Writing a slot appends the element.
  pub write_slot-Holds : Holds (write_slot s e) (push_back es e)
  write_slot-Holds = record {
    count_is = omega (arith, count_new, h.count_is, length-append es (e ∷ []));
    blocks_are = omega (arith, count_new, blocks_new);
    slots = λ i p. elim (Bool-cases (i == s.setup_count)) [
      | inl new ↦
          let here : i ≡ length es = ground (arith, h.count_is) in
          let last : i ≡ s.setup_count = ground arith in
          rw here (rw (sym here ∙ last) slot_new ∙ sym (get_or-append_length es [] e []))
      | inr old ↦
          let less : i < s.setup_count = ground (arith, count_new) in
          slot_old i less
          ∙ h.slots i less
          ∙ sym (get_or-append_left es (e ∷ []) i [] (omega (arith, h.count_is)))
    ];
    short = λ i p. elim (Bool-cases (i == s.setup_count)) [
      | inl new ↦
          let last : i ≡ s.setup_count = ground arith in rw (last, block_new, written_length) fits
      | inr old ↦
          let less : i < s.setup_count = ground (arith, count_new) in
          rw (block_old i less (i % 65536 * 34) (omega arith)) (h.short i less)
    ];
  }
