-- ===== src/Match/Reader/Body.antt =====
-- The entry bytes of a window, taken together: what the byte by byte parse makes of them.
use open_mined_psi.Base.{
  ℕ, zero, suc, ◌+◌, ◌≤◌, ◌<◌, ◌≡◌, ap, ◌∙◌, Bytes, [], ◌∷◌, ◌++◌, length, false, true, take, drop,
  append_assoc, append-nil, arith, ◌==◌, length-append,
}
use open_mined_psi.Status.{done}
use open_mined_psi.Match.Reader.{OnEntry}
use open_mined_psi.Match.Reader.Parse.{at_body, entry_read, parse_byte, and_then, parse}

module _ {ℓ} {S : Type ℓ} (on_entry : OnEntry S) (v : ℕ) where
  -- The window ends inside the entry.
  pub parse_part :
      (acc bytes : Bytes) (s : S)
      → length acc + length bytes < v
      → parse on_entry (at_body v acc) bytes s
        ≡ record { place = at_body v (acc ++ bytes); owner = s; status = done }
  unfolding parse parse_byte
  parse_part acc [] s h = rw (append-nil acc)
  parse_part acc (c ∷ cs) s h =
      let apart : (length acc + 1 == v) ≡ false = ground arith in
      rw apart (
        parse_part (acc ++ c ∷ []) cs s (omega (arith, length-append acc (c ∷ [])))
        ∙ rw (append_assoc acc (c ∷ []) cs))

  -- The window holds the rest of the entry.
  pub parse_whole :
      (acc bytes : Bytes) (s : S) (k : ℕ)
      → length acc + suc k ≡ v
      → suc k ≤ length bytes
      → parse on_entry (at_body v acc) bytes s
        ≡ and_then
            (entry_read on_entry (acc ++ take (suc k) bytes) s)
            (λ a' s'. parse on_entry a' (drop (suc k) bytes) s')
  unfolding parse parse_byte
  parse_whole acc [] s k e h = absurd (omega arith)
  parse_whole acc (c ∷ cs) s zero e h =
      let here : (length acc + 1 == v) ≡ true = ground arith in rw here
  parse_whole acc (c ∷ cs) s (suc k) e h =
      let apart : (length acc + 1 == v) ≡ false = ground arith in
      rw apart (
        parse_whole (acc ++ c ∷ []) cs s k (omega (arith, length-append acc (c ∷ []))) (omega arith)
        ∙ ap
            (λ entry.
              and_then (entry_read on_entry entry s)
                (λ a' s'. parse on_entry a' (drop (suc k) cs) s'))
            (append_assoc acc (c ∷ []) (take (suc k) cs)))
