-- ===== src/Match/Reader/Keeps.antt =====
-- What every callback of `Feed` of private_set_intersection/cpp/psi_match.cpp keeps, a whole window
-- keeps.
use open_mined_psi.Base.{
  ℕ, ◌+◌, ◌≤◌, ◌<◌, ◌≡◌, refl, Bytes, [], ◌∷◌, ◌++◌, length, ltb, ◌==◌, arith, Bool-cases, inl, inr,
  length-append,
}
use open_mined_psi.Status.{Error, err, Status, done, Result-cases, element}
use open_mined_psi.Match.Reader.{
  OnEntry, k_tag, k_length, k_body, State, EntryReader, max_element_bytes, add_varint32_byte,
  field1_length_delimited,
}
use open_mined_psi.Match.Reader.Parse.{
  Place, at_tag, at_length, at_body, Parsed, entry_read, length_read, parse_byte, parse, view,
}
use open_mined_psi.Match.Reader.Windows.{IsReading}

-- Inside an entry a byte is missing, and the entry is short.
unfoldable pub IsShort : Place → Type 0
IsShort at_tag = Unit
IsShort (at_length v n) = Unit
IsShort (at_body v acc) = (length acc < v) × (v ≤ max_element_bytes)

pub view-IsShort : (r : EntryReader) → IsReading r → IsShort (view r)
unfolding view IsShort
view-IsShort r v = by_state r.state refl
  where
    by_state : (state : State) → r.state ≡ state → IsShort (view r)
    by_state k_tag e = rw (e, view) tt
    by_state k_length e = rw (e, view) tt
    by_state k_body e = rw (e, view) (v.missing e, v.short e)

module _ {ℓ κ} {S : Type ℓ} (on_entry : OnEntry S) (P : Status → S → Type κ)
    (stays : (e : Error) (s : S) → P done s → P (err e) s)
    (keeps : (entry : Bytes) (s : S)
      → length entry ≤ max_element_bytes
      → P done s
      → P (on_entry entry s).0 (on_entry entry s).1) where
  abbrev Kept : Parsed S → Type κ
  Kept p = P p.status p.owner × (p.status ≡ done → IsShort p.place)

  entry_read-Kept :
      (entry : Bytes) (s : S)
      → length entry ≤ max_element_bytes
      → P done s
      → Kept (entry_read on_entry entry s)
  unfolding entry_read IsShort
  entry_read-Kept entry s short p = (keeps entry s short p, λ _. tt)

  length_read-Kept : (v n : ℕ) (s : S) → P done s → Kept (length_read on_entry v n s)
  unfolding length_read IsShort
  length_read-Kept v n s p = elim (Bool-cases (ltb max_element_bytes v)) [
    | inl long ↦ rw long (stays _ s p, λ _. tt)
    | inr fits ↦ elim (Bool-cases (v == 0)) [
      | inl empty ↦ rw (fits, empty) (entry_read-Kept [] s (omega arith) p)
      | inr more ↦ rw (fits, more) (p, λ _. (ground arith, ground arith))
    ]
  ]

  pub parse_byte-Kept :
      (a : Place) (c : ℕ) (s : S) → IsShort a → P done s → Kept (parse_byte on_entry a c s)
  unfolding parse_byte IsShort
  parse_byte-Kept at_tag c s h p = elim (Bool-cases (c == field1_length_delimited)) [
    | inl field ↦ rw field (p, λ _. tt)
    | inr other ↦ rw other (stays _ s p, λ _. tt)
  ]
  parse_byte-Kept (at_length v n) c s h p = elim (Result-cases (add_varint32_byte c v n element)) [
    | inl (w, read) ↦ elim (Bool-cases w.complete) [
      | inl whole ↦ rw (read, whole, parse_byte) (length_read-Kept w.value w.bytes_read s p)
      | inr part ↦ rw (read, part, parse_byte) (p, λ _. tt)
    ]
    | inr (e, bad) ↦ rw (bad, parse_byte) (stays e s p, λ _. tt)
  ]
  parse_byte-Kept (at_body v acc) c s h p =
      let size = length-append acc (c ∷ []) in
      elim (Bool-cases (length acc + 1 == v)) [
        | inl last ↦ rw last (entry_read-Kept (acc ++ c ∷ []) s (ground (arith, h.0, h.1)) p)
        | inr more ↦ rw more (p, λ _. (ground (arith, h.0), h.1))
      ]

  pub parse-Kept :
      (a : Place) (bytes : Bytes) (s : S) → IsShort a → P done s → Kept (parse on_entry a bytes s)
  unfolding parse
  parse-Kept a [] s h p = (p, λ _. h)
  parse-Kept a (c ∷ cs) s h p =
      let q = parse_byte on_entry a c s in
      let (kept, short) = parse_byte-Kept a c s h p in
      elim (Result-cases q.status) [
        | inl (_, fine) ↦
            rw (fine, parse) (parse-Kept q.place cs q.owner (short fine) (rw fine at kept))
        | inr (e, bad) ↦ rw (bad, parse) (rw bad at kept, λ h. cc)
      ]
