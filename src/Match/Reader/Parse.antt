-- ===== src/Match/Reader/Parse.antt =====
-- What a run of `encrypted_elements` entries means, one byte at a time: the specification that
-- `Feed` of private_set_intersection/cpp/psi_match.cpp is compared with. It has no windows.
use open_mined_psi.Base.{
  ℕ, ◌+◌, ◌≡◌, refl, Bytes, [], ◌∷◌, ◌++◌, length, ltb, ◌==◌, if◌then◌else◌, arith,
}
use open_mined_psi.Status.{
  element, unexpected_field, element_too_long, invalid_argument, ok, err, Status, done,
}
use open_mined_psi.Match.Reader.{
  field1_length_delimited, max_element_bytes, add_varint32_byte, k_tag, k_length, k_body,
  EntryReader, OnEntry,
}

-- Where a parse stands: before an entry, in its length, or in its bytes.
pub data Place : Type 0 where
  at_tag : Place
  at_length : ℕ → ℕ → Place
  at_body : ℕ → Bytes → Place

pub record Parsed {ℓ} (S : Type ℓ) : Type ℓ where
  pub place : Place
  pub owner : S
  pub status : Status

module _ {ℓ} {S : Type ℓ} where
  unfoldable pub entry_read : OnEntry S → Bytes → S → Parsed S
  entry_read on_entry entry s =
      let (status, s') = on_entry entry s in record { place = at_tag; owner = s'; status = status }

  unfoldable pub length_read : OnEntry S → ℕ → ℕ → S → Parsed S
  unfolding entry_read
  length_read on_entry v n s =
      if ltb max_element_bytes v
      then record {
        place = at_length v n;
        owner = s;
        status = err (invalid_argument (element_too_long v));
      }
      else if v == 0
      then entry_read on_entry [] s
      else record { place = at_body v []; owner = s; status = done }

  unfoldable pub parse_byte : OnEntry S → Place → ℕ → S → Parsed S
  unfolding length_read entry_read
  parse_byte on_entry at_tag c s =
      if c == field1_length_delimited
      then record { place = at_length 0 0; owner = s; status = done }
      else record { place = at_tag; owner = s; status = err (invalid_argument unexpected_field) }
  parse_byte on_entry (at_length v n) c s = elim (add_varint32_byte c v n element) [
    | err e ↦ record { place = at_length v n; owner = s; status = err e }
    | ok w ↦
        if w.complete
        then length_read on_entry w.value w.bytes_read s
        else record { place = at_length w.value w.bytes_read; owner = s; status = done }
  ]
  parse_byte on_entry (at_body v acc) c s =
      if length acc + 1 == v
      then entry_read on_entry (acc ++ c ∷ []) s
      else record { place = at_body v (acc ++ c ∷ []); owner = s; status = done }

  -- Go on only where nothing was refused.
  abbrev pub and_then : Parsed S → (Place → S → Parsed S) → Parsed S
  and_then p k = elim p.status [ ok _ ↦ k p.place p.owner | err _ ↦ p ]

  unfoldable pub parse : OnEntry S → Place → Bytes → S → Parsed S
  parse on_entry a [] s = record { place = a; owner = s; status = done }
  parse on_entry a (c ∷ cs) s =
      and_then (parse_byte on_entry a c s) (λ a' s'. parse on_entry a' cs s')

  -- A parse of two windows is the parse of the first, then of the second unless it refused.
  pub parse-append :
      (on_entry : OnEntry S) (a : Place) (xs ys : Bytes) (s : S)
      → parse on_entry a (xs ++ ys) s
        ≡ and_then (parse on_entry a xs s) (λ a' s'. parse on_entry a' ys s')
  unfolding parse
  parse-append on_entry a [] ys s = refl
  parse-append on_entry a (c ∷ cs) ys s = ground (
    arith,
    parse-append on_entry (parse_byte on_entry a c s).place cs ys (parse_byte on_entry a c s).owner,
  )

-- The place that a reader's fields stand for; `body_` and the length are dead before an entry.
unfoldable pub view : EntryReader → Place
view r = elim r.state [
  | k_tag ↦ at_tag
  | k_length ↦ at_length r.entry_length r.length_bytes
  | k_body ↦ at_body r.entry_length r.body
]
