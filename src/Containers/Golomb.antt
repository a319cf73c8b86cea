-- ===== src/Containers/Golomb.antt =====
-- `golomb_compress` and `golomb_intersect` of private_set_intersection/cpp/datastructure/golomb.cpp, byte
-- by byte. The values are not negative and `int64_t` is taken not to overflow; a byte read past the end
-- of the string is 0, and one written there is lost. The floating point formula for `div` is a
-- parameter.
pub mod Number
pub mod Write
pub mod Code
pub mod Skip
pub mod Read
pub mod Meet
pub mod Merge
pub mod Values
use open_mined_psi.Base.{
  ℕ, zero, suc, ◌+◌, ◌-◌, ◌*◌, ◌/◌, ◌%◌, ◌^◌, min, bit_or, Bool, true, false, not, ◌&&◌, ◌||◌,
  Bytes, List, [], ◌∷◌, ◌++◌, Option, none, some, length, get_or, set, replicate, ltb, ◌==◌,
  if◌then◌else◌,
}

pub record GolombCompressed : Type 0 where
  pub div : ℕ
  pub compressed : Bytes

-- `compressed[i] |= v` on a `char`
abbrev pub or_byte : Bytes → ℕ → ℕ → Bytes
or_byte bits i v = set bits i (bit_or (get_or bits i 0) v)

-- The loop that copies the remainder, on fuel `div`, since each round copies a bit at least.
unfoldable pub write_remainder : ℕ → ℕ → ℕ → ℕ → ℕ → ℕ → Bytes → Bytes
write_remainder zero div remainder binary_idx binary_start i bits = bits
write_remainder (suc fuel) div remainder binary_idx binary_start i bits =
    elim (ltb binary_idx div) [
      | false ↦ bits
      | true ↦
          write_remainder fuel div remainder (binary_idx + (8 - binary_start)) 0 (i + 1)
            (or_byte bits i (remainder / 2 ^ binary_idx * 2 ^ binary_start % 256))
    ]

-- One delta appended to the bits from `res_idx` on: the round of the loop for a new value.
unfoldable pub write_delta : ℕ → ℕ → ℕ → Bytes → Bytes
write_delta div delta res_idx bits =
    let quotient = delta / 2 ^ div in
    let len = quotient + 1 + div in
    let unary_end = res_idx + quotient in
    let sized = bits ++ replicate ((res_idx + len + 7) / 8 - length bits) 0 in
    let unary = or_byte sized (unary_end / 8) (2 ^ (unary_end % 8)) in
    write_remainder div div (delta % 2 ^ div) 0 ((unary_end + 1) % 8) ((unary_end + 1) / 8) unary

-- The loop over the values: the bits, `res_idx`, `prev` and `start`.
unfoldable pub compress_from : ℕ → List ℕ → Bytes → ℕ → ℕ → Bool → Bytes
compress_from div [] bits res_idx prev start = bits
compress_from div (curr ∷ rest) bits res_idx prev start = elim (start || ltb prev curr) [
  | false ↦ compress_from div rest bits res_idx prev start
  | true ↦
      let delta = curr - prev in
      compress_from div rest (write_delta div delta res_idx bits)
        (res_idx + (delta / 2 ^ div + 1 + div)) curr false
]

abbrev last_or : ℕ → List ℕ → ℕ
last_or d [] = d
last_or d (x ∷ xs) = last_or x xs

-- `div`: `none` in `div_param` stands for a negative one, and then the formula is taken. The branch for no
-- values gives 0.
unfoldable pub div_of : (ℕ → ℕ → Option ℕ) → List ℕ → Option ℕ → Option ℕ
div_of estimate_div [] div_param = some 0
div_of estimate_div (x ∷ xs) (some d) = some d
div_of estimate_div (x ∷ xs) none = estimate_div (last_or x xs) (length (x ∷ xs))

-- The rest, from `div` on.
unfoldable pub compress_with : ℕ → List ℕ → GolombCompressed
compress_with div vals = record { div = div; compressed = compress_from div vals [] 0 0 true }

-- `none` where the code is undefined: the formula gives no `int64_t`, or a shift by `div` is as wide as
-- the integers.
unfoldable pub golomb_compress : (ℕ → ℕ → Option ℕ) → List ℕ → Option ℕ → Option GolombCompressed
golomb_compress estimate_div vals div_param = elim (div_of estimate_div vals div_param) [
  | none ↦ none
  | some div ↦ elim (ltb div 64) [ false ↦ none | true ↦ some (compress_with div vals) ]
]

-- `__builtin_ctz` of a byte that is not 0
unfoldable pub ctz : ℕ → ℕ → ℕ
ctz zero n = 0
ctz (suc k) n = elim (n % 2 == 1) [ true ↦ 0 | false ↦ suc (ctz k (n / 2)) ]

-- Where a loop over the string stands: the index of `it`, the offset, and what it has added up.
pub record Cursor : Type 0 where
  pub at : ℕ
  pub offset : ℕ
  pub total : ℕ

-- The loop that skips empty bytes, on fuel `length bits`, since each round skips a byte.
unfoldable pub skip_empty : Bytes → ℕ → Cursor → Cursor
skip_empty bits zero c = c
skip_empty bits (suc fuel) c =
    elim (ltb c.at (length bits) && (get_or bits c.at 0 / 2 ^ c.offset == 0)) [
      | false ↦ c
      | true ↦
          skip_empty bits fuel
            (record { at = c.at + 1; offset = 0; total = c.total + (8 - c.offset) })
    ]

-- The loop that reads the remainder, on fuel `div`, since each round reads a bit at least. The offset
-- is `binary_start` and the total is `remainder`.
unfoldable pub read_remainder : Bytes → ℕ → ℕ → ℕ → Cursor → Cursor
read_remainder bits zero div binary_idx c = c
read_remainder bits (suc fuel) div binary_idx c = elim (ltb binary_idx div) [
  | false ↦ c
  | true ↦
      let num_bits = min (8 - c.offset) (div - binary_idx) in
      read_remainder bits fuel div (binary_idx + num_bits) (record {
        at = c.at + 1;
        offset = 0;
        total = bit_or c.total (get_or bits c.at 0 / 2 ^ c.offset % 2 ^ num_bits * 2 ^ binary_idx);
      })
]

-- The rest of the round from the byte with the end of the unary quotient: the total is the delta.
unfoldable pub read_delta : Bytes → ℕ → Cursor → Cursor
read_delta bits div c =
    let zeros = ctz 8 (get_or bits c.at 0 / 2 ^ c.offset) in
    let one_idx = zeros + c.offset in
    let binary_start = (one_idx + 1) % 8 in
    let start = c.at + (if binary_start == 0 then 1 else 0) in
    let after =
      read_remainder bits div div 0 (record { at = start; offset = binary_start; total = 0 }) in
    let offset' = (one_idx + 1 + div) % 8 in
    record {
      at = after.at - (if ltb 0 div && not (offset' == 0) then 1 else 0);
      offset = offset';
      total = bit_or ((c.total + zeros) * 2 ^ div) after.total;
    }

-- The loop that passes the values below `v`, and the one that takes the indexes of those equal to it.
unfoldable pub drop_below : ℕ → List (ℕ × ℕ) → List (ℕ × ℕ)
drop_below v [] = []
drop_below v (a ∷ rest) = elim (ltb a.0 v) [ true ↦ drop_below v rest | false ↦ a ∷ rest ]

unfoldable pub take_equal : ℕ → List (ℕ × ℕ) → List ℕ × List (ℕ × ℕ)
take_equal v [] = ([], [])
take_equal v (a ∷ rest) = elim (a.0 == v) [
  | true ↦ let (taken, left) = take_equal v rest in (a.1 ∷ taken, left)
  | false ↦ ([], a ∷ rest)
]

-- The outer loop on fuel, with the prefix sum and what is left of the sorted array: the indexes that
-- it pushes from here on, or `none` where the fuel runs out.
unfoldable pub intersect_loop : Bytes → ℕ → ℕ → ℕ → ℕ → ℕ → List (ℕ × ℕ) → Option (List ℕ)
intersect_loop bits div zero at offset prefix_sum arr = none
intersect_loop bits div (suc fuel) at offset prefix_sum arr =
    let c = skip_empty bits (length bits) (record { at = at; offset = offset; total = 0 }) in
    elim (c.at == length bits) [
      | true ↦ some []
      | false ↦
          let d = read_delta bits div c in
          let sum = prefix_sum + d.total in
          let (taken, left) = take_equal sum (drop_below sum arr) in
          elim left [
            | [] ↦ some taken
            | a ∷ rest ↦ elim (intersect_loop bits div fuel d.at d.offset sum (a ∷ rest)) [
              | none ↦ none
              | some more ↦ some (taken ++ more)
            ]
          ]
    ]

-- Each round reads a bit at least.
unfoldable pub golomb_intersect : Bytes → ℕ → List (ℕ × ℕ) → Option (List ℕ)
golomb_intersect [] div arr = some []
golomb_intersect (b ∷ bits) div arr =
    intersect_loop (b ∷ bits) div (8 * length (b ∷ bits) + 1) 0 0 0 arr
