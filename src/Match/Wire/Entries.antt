-- ===== src/Match/Wire/Entries.antt =====
-- The byte by byte parse of encoded entries, of which `Feed` of
-- private_set_intersection/cpp/psi_match.cpp makes the same, gives the entries back.
use open_mined_psi.Base.{
  ℕ, zero, suc, ◌*◌, ◌^◌, ◌%◌, ◌/◌, ◌≤◌, ◌≡◌, refl, ap, ap₂, ◌∙◌, Bytes, List, [], ◌∷◌, ◌++◌,
  length, take, drop, push_back, append_assoc, append-nil, arith, length-append, ltb, ◌==◌, true,
  false,
}
use open_mined_psi.Base.Bits.{zero-bit_or}
use mathlib.Core.List.Memᴰ.{head, tail}
use open_mined_psi.Status.{done, ok, element}
use open_mined_psi.Match.Reader.{
  OnEntry, add_varint32_byte, max_element_bytes, field1_length_delimited,
}
use open_mined_psi.Match.Reader.Parse.{
  at_tag, at_length, entry_read, length_read, parse_byte, and_then, parse,
}
use open_mined_psi.Match.Reader.Body.{parse_whole}
use open_mined_psi.Match.Wire.{entries, AllShort}

take-append_of {ℓ} : {A : Type ℓ} (n : ℕ) (xs ys : List A) → length xs ≡ n → take n (xs ++ ys) ≡ xs
take-append_of zero [] ys h = refl
take-append_of (suc n) [] ys h = absurd (omega (arith, h))
take-append_of zero (x ∷ xs) ys h = absurd (omega (arith, h))
take-append_of (suc n) (x ∷ xs) ys h = ap (◌∷◌ x) (take-append_of n xs ys (omega (arith, h)))

drop-append_of {ℓ} : {A : Type ℓ} (n : ℕ) (xs ys : List A) → length xs ≡ n → drop n (xs ++ ys) ≡ ys
drop-append_of zero [] ys h = refl
drop-append_of (suc n) [] ys h = absurd (omega (arith, h))
drop-append_of zero (x ∷ xs) ys h = absurd (omega (arith, h))
drop-append_of (suc n) (x ∷ xs) ys h = drop-append_of n xs ys (omega (arith, h))

-- A length of one byte.
short_length :
    (n : ℕ)
    → n ≤ max_element_bytes
    → add_varint32_byte n 0 0 element ≡ ok (record { value = n; bytes_read = 1; complete = true })
unfolding add_varint32_byte
short_length n h =
    let last : (n / 128 % 2 == 0) ≡ true = ground arith in
    let value : n % 128 * 2 ^ (7 * 0) % 2 ^ 32 ≡ n = omega arith in rw (value, zero-bit_or n, last)

module _ {ℓ} {S : Type ℓ} (on_entry : OnEntry S) where
  parse_bytes :
      (e rest : Bytes) (s : S) (n : ℕ)
      → length e ≡ n
      → n ≤ max_element_bytes
      → and_then (length_read on_entry n 1 s) (λ a s'. parse on_entry a (e ++ rest) s')
        ≡ and_then (entry_read on_entry e s) (λ a s'. parse on_entry a rest s')
  unfolding length_read
  parse_bytes [] rest s zero h k = refl
  parse_bytes [] rest s (suc n) h k = absurd (omega (arith, h))
  parse_bytes (x ∷ e) rest s zero h k = absurd (omega (arith, h))
  parse_bytes (x ∷ e) rest s (suc n) h k =
      let fits : ltb 33 (suc n) ≡ false = ground arith in
      let more : (suc n == 0) ≡ false = ground arith in
      let size : length e ≡ n = omega (arith, h) in
      rw (fits, more)
        (parse_whole on_entry (suc n) [] (x ∷ e ++ rest) s n (omega arith)
            (omega (arith, h, length-append e rest))
          ∙ ap₂
              (λ entry left.
                and_then (entry_read on_entry (x ∷ entry) s) (λ a s'. parse on_entry a left s'))
              (take-append_of n e rest size) (drop-append_of n e rest size))

  length_byte :
      (n : ℕ) (s : S)
      → n ≤ max_element_bytes
      → parse_byte on_entry (at_length 0 0) n s ≡ length_read on_entry n 1 s
  unfolding parse_byte
  length_byte n s h = rw (short_length n h, parse_byte)

  -- The parse of an encoded entry hands the entry over and goes on behind it.
  pub parse_one :
      (e rest : Bytes) (s : S)
      → length e ≤ max_element_bytes
      → parse on_entry at_tag (field1_length_delimited ∷ length e ∷ e ++ rest) s
        ≡ and_then (entry_read on_entry e s) (λ a s'. parse on_entry a rest s')
  unfolding parse parse_byte
  parse_one e rest s h =
      ap (λ p. and_then p (λ a s'. parse on_entry a (e ++ rest) s')) (length_byte (length e) s h)
      ∙ parse_bytes e rest s (length e) refl h

abbrev pub collect : OnEntry (List Bytes)
collect e t = (done, push_back t e)

collect_one :
    (e rest : Bytes) (t : List Bytes)
    → length e ≤ max_element_bytes
    → parse collect at_tag (field1_length_delimited ∷ length e ∷ e ++ rest) t
      ≡ parse collect at_tag rest (push_back t e)
unfolding entry_read
collect_one e rest t h = parse_one collect e rest t h

-- The parse of encoded entries collects them.
pub parse-entries :
    (es t : List Bytes)
    → AllShort es
    → parse collect at_tag (entries es) t
      ≡ record { place = at_tag; owner = t ++ es; status = done }
unfolding entries
parse-entries [] t h = unfold parse in rw (append-nil t)
parse-entries (e ∷ es) t h =
    collect_one e (entries es) t (h e (head refl))
    ∙ parse-entries es (push_back t e) (λ x m. h x (tail m))
    ∙ rw (append_assoc t (e ∷ []) es)
