-- ===== src/Match/Slots.antt =====
-- The setup elements of private_set_intersection/cpp/psi_match.{h,cpp}: fixed slots in blocks, with
-- `AddSetupElement`, `SetupElement` and `FindInSetup`. A block is its bytes by offset.
pub mod Memory
pub mod Holds
pub mod Find
pub mod Add
use Prim.Native.Nat.{lt, eq, gt}
use open_mined_psi.Base.{
  ℕ, zero, suc, ◌+◌, ◌-◌, ◌*◌, ◌/◌, ◌%◌, ◌^◌, Bool, true, false, not, ◌&&◌, Bytes, List, [], ◌∷◌,
  Option, none, some, Ordering, length, get_or, set, push_back, ltb, leb, ◌==◌, if◌then◌else◌,
}
use open_mined_psi.Status.{
  too_many_setup_elements, not_strictly_ascending, invalid_argument, ok, err, Status, done,
}
use open_mined_psi.Match.Compare.{compare_elements}
use Memory.{Block, zero_block, update, memcpy, read}

abbrev pub slot_bytes : ℕ
slot_bytes = 34

abbrev pub block_slots : ℕ
block_slots = 2 ^ 16

abbrev pub max_elements : ℕ
max_elements = 2 ^ 32 - 1

pub record SetupStore : Type 0 where
  pub setup_blocks : List Block
  pub setup_count : ℕ

abbrev pub no_setup : SetupStore
no_setup = record { setup_blocks = []; setup_count = 0 }

-- `index >> kBlockSlotsLog2` and `index & (kBlockSlots - 1)`
unfoldable pub setup_element : SetupStore → ℕ → Bytes
setup_element s index =
    let block = get_or s.setup_blocks (index / block_slots) zero_block in
    let slot = index % block_slots * slot_bytes in read block (slot + 1) (block slot)

-- `CompareElements(a, b) >= 0`
unfoldable pub not_below : Bytes → Bytes → Bool
not_below a b = elim (compare_elements a b) [ lt ↦ false | _ ↦ true ]

unfoldable pub write_slot : SetupStore → Bytes → SetupStore
write_slot s element =
    let block = s.setup_count / block_slots in
    let blocks =
      if block == length s.setup_blocks
      then push_back s.setup_blocks zero_block
      else s.setup_blocks in
    let slot = s.setup_count % block_slots * slot_bytes in
    let sized = update (get_or blocks block zero_block) slot (length element % 256) in
    record {
      setup_blocks = set blocks block (memcpy sized (slot + 1) element);
      setup_count = s.setup_count + 1;
    }

unfoldable pub add_setup_element : Bytes → SetupStore → Status × SetupStore
add_setup_element element s =
    if leb max_elements s.setup_count
    then (err (invalid_argument too_many_setup_elements), s)
    else if ltb 0 s.setup_count && not_below (setup_element s (s.setup_count - 1)) element
    then (err (invalid_argument not_strictly_ascending), s)
    else (done, write_slot s element)

-- The loop of `FindInSetup` on fuel; `some none` is the answer -1, and `none` means no fuel left.
unfoldable pub find_loop : SetupStore → Bytes → ℕ → ℕ → ℕ → Option (Option ℕ)
find_loop s element zero low high = none
find_loop s element (suc fuel) low high = elim (ltb low high) [
  | false ↦ some none
  | true ↦
      let mid = low + (high - low) / 2 in
      elim (compare_elements (setup_element s mid) element) [
        | eq ↦ some (some mid)
        | lt ↦ find_loop s element fuel (mid + 1) high
        | gt ↦ find_loop s element fuel low mid
      ]
]

-- 33 rounds halve any range of 32 bits to nothing.
abbrev pub find_rounds : ℕ
find_rounds = 33

unfoldable pub find_in_setup : SetupStore → Bytes → Option (Option ℕ)
find_in_setup s element = find_loop s element find_rounds 0 s.setup_count
