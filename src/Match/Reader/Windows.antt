-- ===== src/Match/Reader/Windows.antt =====
-- `Feed` of private_set_intersection/cpp/psi_match.cpp against the byte by byte parse.
use open_mined_psi.Base.{
  ℕ, zero, suc, ◌+◌, ◌-◌, ◌≤◌, ◌<◌, min, ◌≡◌, refl, ◌∙◌, true, false, Bytes, [], ◌∷◌, ◌++◌, length,
  take, drop, arith, leb, ltb, ◌==◌, Bool-cases, inl, inr, length-drop, length-take, length-append,
  take_all, drop_all, Option, some,
}
use open_mined_psi.Status.{err, done, Result-cases, element}
use open_mined_psi.Match.Reader.{
  State, k_tag, k_length, k_body, EntryReader, OnEntry, Round, go, stop, deliver, read_tag,
  begin_body, read_length, read_body, feed_round, feed_loop, feed, Fed, sub_size, add_varint32_byte,
}
use open_mined_psi.Match.Reader.Parse.{
  Parsed, entry_read, length_read, parse_byte, and_then, parse, view,
}
use open_mined_psi.Match.Reader.Body.{parse_part, parse_whole}

-- Inside an entry at least one byte is missing, and the entry is short.
pub record IsReading (r : EntryReader) : Type 0 where
  pub missing : r.state ≡ k_body → length r.body < r.entry_length
  pub short : r.state ≡ k_body → r.entry_length ≤ 33

nil_of_length : (xs : Bytes) → length xs ≡ 0 → xs ≡ []
nil_of_length [] h = refl
nil_of_length (x ∷ xs) h = absurd (omega arith)

module _ {ℓ} {S : Type ℓ} (on_entry : OnEntry S) where
  -- A round agrees with the parse, keeps the reader in order and reads a byte.
  abbrev Agrees : EntryReader → Bytes → S → Round S → Type ℓ
  Agrees r bytes s (go r' rest s') =
      IsReading r'
      × (length rest < length bytes)
      × (parse on_entry (view r) bytes s ≡ parse on_entry (view r') rest s')
  Agrees r bytes s (stop r' e s') =
      parse on_entry (view r) bytes s ≡ record { place = view r'; owner = s'; status = err e }

  read_tag-Agrees :
      (r : EntryReader) (c : ℕ) (rest : Bytes) (s : S)
      → r.state ≡ k_tag
      → Agrees r (c ∷ rest) s (read_tag r c rest s)
  unfolding read_tag view parse parse_byte
  read_tag-Agrees r c rest s e = ground arith

  deliver-Agrees :
      (r : EntryReader) (bytes entry rest : Bytes) (s : S) (p : EntryReader)
      → r.state ≡ k_tag
      → length rest < length bytes
      → parse on_entry (view p) bytes s
        ≡ and_then (entry_read on_entry entry s) (λ a' s'. parse on_entry a' rest s')
      → Agrees p bytes s (deliver on_entry r entry rest s)
  unfolding deliver view entry_read
  deliver-Agrees r bytes entry rest s p e less h = ground arith

  begin_body-Agrees :
      (r p : EntryReader) (bytes rest : Bytes) (s : S)
      → r.state ≡ k_length
      → length rest < length bytes
      → parse on_entry (view p) bytes s
        ≡ and_then
            (length_read on_entry r.entry_length r.length_bytes s)
            (λ a' s'. parse on_entry a' rest s')
      → Agrees p bytes s (begin_body on_entry r rest s)
  unfolding begin_body view length_read entry_read
  begin_body-Agrees r p bytes rest s e less h = elim (Bool-cases (ltb 33 r.entry_length)) [
    | inl long ↦ ground arith
    | inr fits ↦ elim (Bool-cases (r.entry_length == 0)) [
      | inl empty ↦
          ground (arith, deliver-Agrees (record r { body = []; state = k_tag }) bytes [] rest s p)
      | inr more ↦ ground arith
    ]
  ]

  read_length-Agrees :
      (r : EntryReader) (c : ℕ) (rest : Bytes) (s : S)
      → r.state ≡ k_length
      → Agrees r (c ∷ rest) s (read_length on_entry r c rest s)
  unfolding read_length view parse parse_byte
  read_length-Agrees r c rest s e =
      elim (Result-cases (add_varint32_byte c r.entry_length r.length_bytes element)) [
        | inl (w, h) ↦ ground (
          arith,
          begin_body-Agrees (record r { entry_length = w.value; length_bytes = w.bytes_read }) r
              (c ∷ rest) rest s e,
        )
        | inr (x, h) ↦ ground arith
      ]

  sub_size_exact : (a b : ℕ) → b ≤ a → a ≤ 33 → sub_size a b ≡ a - b
  sub_size_exact a b h k = omega arith

  -- The window holds the rest of the entry, in place or after a carried part.
  read_body_whole :
      (r : EntryReader) (bytes : Bytes) (s : S) (k : ℕ)
      → length r.body + suc k ≡ r.entry_length
      → r.entry_length ≤ 33
      → suc k ≤ length bytes
      → (r' : EntryReader) × (r'.state ≡ k_tag)
        × (read_body on_entry r bytes s
            ≡ deliver on_entry r' (r.body ++ take (suc k) bytes) (drop (suc k) bytes) s)
  unfolding read_body
  read_body_whole r bytes s k e short h =
      let w : sub_size r.entry_length (length r.body) ≡ suc k = omega arith in
      let m : min (suc k) (length bytes) ≡ suc k = omega arith in
      let fits : leb (suc k) (length bytes) ≡ true = ground arith in
      elim (Bool-cases (length r.body == 0)) [
        | inl empty ↦ (
          record r { state = k_tag },
          refl,
          rw (w, fits, empty, nil_of_length r.body (ground arith)),
        )
        | inr carried ↦ (
          record r { body = r.body ++ take (suc k) bytes; state = k_tag },
          refl,
          rw (w, m, fits, carried)
              (ground
                (arith, length-append r.body (take (suc k) bytes), length-take (suc k) bytes)),
        )
      ]

  -- The window ends inside the entry.
  read_body_part :
      (r : EntryReader) (bytes : Bytes) (s : S)
      → length r.body + length bytes < r.entry_length
      → r.entry_length ≤ 33
      → read_body on_entry r bytes s ≡ go (record r { body = r.body ++ bytes }) [] s
  unfolding read_body
  read_body_part r bytes s h short =
      let w : sub_size r.entry_length (length r.body) ≡ r.entry_length - length r.body =
        omega arith in
      let m : min (r.entry_length - length r.body) (length bytes) ≡ length bytes = omega arith in
      let over : leb (r.entry_length - length r.body) (length bytes) ≡ false = ground arith in
      let all = take_all (length bytes) bytes (omega arith) in
      let rest = drop_all (length bytes) bytes (omega arith) in
      let apart : (length (r.body ++ bytes) == r.entry_length) ≡ false =
        ground (arith, length-append r.body bytes) in
      rw (w, m, over, all, rest, apart) (ground arith)

  read_body-Agrees :
      (r : EntryReader) (c : ℕ) (rest : Bytes) (s : S)
      → r.state ≡ k_body
      → IsReading r
      → Agrees r (c ∷ rest) s (read_body on_entry r (c ∷ rest) s)
  unfolding view parse
  read_body-Agrees r c rest s e v =
      elim (Bool-cases (leb (r.entry_length - length r.body) (suc (length rest)))) [
        | inl fits ↦
            whole (r.entry_length - length r.body - 1) (omega (arith, v.missing e))
              (ground (arith, v.missing e))
        | inr over ↦ part (ground arith)
      ]
    where
      whole :
          (k : ℕ)
          → length r.body + suc k ≡ r.entry_length
          → suc k ≤ suc (length rest)
          → Agrees r (c ∷ rest) s (read_body on_entry r (c ∷ rest) s)
      whole k len fits =
          let (r', tagged, run) = read_body_whole r (c ∷ rest) s k len (v.short e) fits in
          rw run (
            deliver-Agrees r' (c ∷ rest) (r.body ++ take (suc k) (c ∷ rest))
              (drop (suc k) (c ∷ rest)) s r tagged (omega (arith, length-drop k rest))
              (rw (e, view) (parse_whole on_entry r.entry_length r.body (c ∷ rest) s k len fits)))

      part :
          length r.body + suc (length rest) < r.entry_length
          → Agrees r (c ∷ rest) s (read_body on_entry r (c ∷ rest) s)
      part h = rw (read_body_part r (c ∷ rest) s h (v.short e)) (
        record { missing = λ _. omega (arith, length-append r.body (c ∷ rest)); short = v.short },
        omega arith,
        rw (e, view) (parse_part on_entry r.entry_length r.body (c ∷ rest) s h),
      )

  feed_round-Agrees :
      (state : State) (r : EntryReader) (c : ℕ) (rest : Bytes) (s : S)
      → r.state ≡ state
      → IsReading r
      → Agrees r (c ∷ rest) s (feed_round on_entry state r c rest s)
  unfolding feed_round
  feed_round-Agrees k_tag r c rest s e v = read_tag-Agrees r c rest s e
  feed_round-Agrees k_length r c rest s e v = read_length-Agrees r c rest s e
  feed_round-Agrees k_body r c rest s e v = read_body-Agrees r c rest s e v

  -- What `Feed` returned is what the parse returned, and the reader is in order unless it refused.
  pub record Follows (p : Parsed S) (o : Option (Fed S)) : Type ℓ where
    pub fed : Fed S
    pub ran : o ≡ some fed
    pub same : p ≡ record { place = view fed.reader; owner = fed.owner; status = fed.status }
    pub reading : fed.status ≡ done → IsReading fed.reader

  feed_loop-Follows :
      (fuel : ℕ) (r : EntryReader) (bytes : Bytes) (s : S)
      → IsReading r
      → length bytes ≤ fuel
      → Follows (parse on_entry (view r) bytes s) (feed_loop on_entry fuel r bytes s)
  unfolding feed_loop
  feed_loop-Follows fuel r [] s v h = record {
    fed = record { reader = r; owner = s; status = done };
    ran = refl;
    same = unfold parse in refl;
    reading = λ _. v;
  }
  feed_loop-Follows zero r (c ∷ rest) s v h = absurd (omega arith)
  feed_loop-Follows (suc fuel) r (c ∷ rest) s v h =
      after (feed_round on_entry r.state r c rest s) refl
        (feed_round-Agrees r.state r c rest s refl v)
        (λ r' rest' s' v' h'. feed_loop-Follows fuel r' rest' s' v' h')
    where
      after :
          (x : Round S)
          → feed_round on_entry r.state r c rest s ≡ x
          → Agrees r (c ∷ rest) s x
          → ((r' : EntryReader) (rest' : Bytes) (s' : S)
              → IsReading r'
              → length rest' ≤ fuel
              → Follows (parse on_entry (view r') rest' s') (feed_loop on_entry fuel r' rest' s'))
          → Follows
              (parse on_entry (view r) (c ∷ rest) s)
              (feed_loop on_entry (suc fuel) r (c ∷ rest) s)
      after (go r' rest' s') e (v', less, eq) ih =
          let f = ih r' rest' s' v' (omega arith) in
          record {
            fed = f.fed;
            ran = rw (e, feed_loop) f.ran;
            same = eq ∙ f.same;
            reading = f.reading;
          }
      after (stop r' x s') e eq ih = record {
        fed = record { reader = r'; owner = s'; status = err x };
        ran = rw (e, feed_loop);
        same = eq;
        reading = λ h. cc;
      }

  -- `Feed` of a window follows the byte by byte parse of it, from any reader in order: it ends, the
  -- callbacks, their order and the refusal are the parse's, and the reader stays in order.
  pub feed-Follows :
      (r : EntryReader) (bytes : Bytes) (s : S)
      → IsReading r
      → Follows (parse on_entry (view r) bytes s) (feed on_entry r bytes s)
  unfolding feed
  feed-Follows r bytes s v = feed_loop-Follows (length bytes) r bytes s v (omega arith)
