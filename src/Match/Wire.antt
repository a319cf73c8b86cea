-- ===== src/Match/Wire.antt =====
-- The wire format of the two messages that `PsiMatch` of private_set_intersection/cpp/psi_match.{h,cpp}
-- reads, as psi.proto and that header's comments fix it: the reference that the reading is compared
-- with.
pub mod Entries
pub mod Lockstep
pub mod Sizes
pub mod Setup
pub mod Filling
pub mod Taken
pub mod Response
pub mod Whole
pub mod Sizing
pub mod Agreement
use open_mined_psi.Base.{
  ℕ, zero, suc, ◌+◌, ◌/◌, ◌%◌, ◌≤◌, ◌≡◌, Bytes, List, [], ◌∷◌, ◌++◌, length, ltb, if◌then◌else◌,
}
use mathlib.Core.List.{Memᴰ}
use open_mined_psi.Match.Reader.{field1_length_delimited, max_element_bytes}

-- A run of `encrypted_elements` entries, each shorter than 128 bytes.
unfoldable pub entries : List Bytes → Bytes
entries [] = []
entries (e ∷ es) = field1_length_delimited ∷ length e ∷ e ++ entries es

-- A varint of at most `suc k` bytes: seven bits a byte, the lowest first, with bit 7 on all but the
-- last.
unfoldable pub varint : ℕ → ℕ → Bytes
varint zero n = n ∷ []
varint (suc k) n = if ltb n 128 then n ∷ [] else (n % 128 + 128) ∷ varint k (n / 128)

-- A setup with one `raw` field that holds the elements.
unfoldable pub setup_message : List Bytes → Bytes
setup_message es = field1_length_delimited ∷ varint 4 (length (entries es)) ++ entries es

-- Every element fits into an entry.
abbrev pub AllShort : List Bytes → Type 0
AllShort es = (e : Bytes) → Memᴰ e es → length e ≤ max_element_bytes

abbrev pub IsPrefix : List Bytes → List Bytes → Type 0
IsPrefix t es = (rest : List Bytes) × (t ++ rest ≡ es)
