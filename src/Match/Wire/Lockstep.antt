-- ===== src/Match/Wire/Lockstep.antt =====
-- Two owners of one run of the byte by byte parse that `Feed` of
-- private_set_intersection/cpp/psi_match.cpp follows: one collects the entries, the other keeps a
-- relation with what was collected.
use open_mined_psi.Base.{
  ℕ, ◌+◌, ◌≤◌, ◌≡◌, refl, sym, ap, ◌∙◌, Bytes, List, [], ◌∷◌, ◌++◌, length, push_back, append_assoc,
  append-nil, arith, length-append, ltb, ◌==◌, Bool-cases, inl, inr, subst,
}
use open_mined_psi.Status.{
  invalid_argument, unexpected_field, element_too_long, Error, err, ok, Status, done, element,
  Result-cases,
}
use open_mined_psi.Match.Reader.{
  OnEntry, add_varint32_byte, max_element_bytes, field1_length_delimited,
}
use open_mined_psi.Match.Reader.Parse.{
  Place, at_tag, at_length, at_body, Parsed, entry_read, length_read, parse_byte, and_then, parse,
}
use open_mined_psi.Match.Reader.Keeps.{IsShort}
use open_mined_psi.Match.Wire.{IsPrefix}
use open_mined_psi.Match.Wire.Entries.{collect}

-- Whatever the owner, a byte of a parse is read without a callback or ends one short entry.
data Reads (a : Place) (c : ℕ) : Type 1 where
  reads :
      (a' : Place) (status : Status)
      → (status ≡ done → IsShort a')
      → ((S : Type 0) (on_entry : OnEntry S) (s : S)
          → parse_byte on_entry a c s ≡ record { place = a'; owner = s; status = status })
      → Reads a c
  ends :
      (e : Bytes)
      → length e ≤ max_element_bytes
      → ((S : Type 0) (on_entry : OnEntry S) (s : S)
          → parse_byte on_entry a c s ≡ entry_read on_entry e s)
      → Reads a c

parse_byte-Reads : (a : Place) (c : ℕ) → IsShort a → Reads a c
unfolding parse_byte length_read IsShort
parse_byte-Reads at_tag c h = elim (Bool-cases (c == field1_length_delimited)) [
  | inl field ↦ reads (at_length 0 0) done (λ _. tt) (λ S f s. rw field)
  | inr other ↦ reads at_tag (err (invalid_argument unexpected_field)) (λ _. tt) (λ S f s. rw other)
]
parse_byte-Reads (at_length v n) c h = elim (Result-cases (add_varint32_byte c v n element)) [
  | inl (w, read) ↦ elim (Bool-cases w.complete) [
    | inl whole ↦ elim (Bool-cases (ltb max_element_bytes w.value)) [
      | inl long ↦
          reads (at_length w.value w.bytes_read) (err (invalid_argument (element_too_long w.value)))
            (λ _. tt) (λ S f s. rw (read, whole, long, parse_byte))
      | inr fits ↦ elim (Bool-cases (w.value == 0)) [
        | inl empty ↦ ends [] (omega arith) (λ S f s. rw (read, whole, fits, empty, parse_byte))
        | inr more ↦
            reads (at_body w.value []) done (λ _. (ground arith, ground arith))
              (λ S f s. rw (read, whole, fits, more, parse_byte))
      ]
    ]
    | inr part ↦
        reads (at_length w.value w.bytes_read) done (λ _. tt) (λ S f s. rw (read, part, parse_byte))
  ]
  | inr (e, bad) ↦ reads (at_length v n) (err e) (λ _. tt) (λ S f s. rw (bad, parse_byte))
]
parse_byte-Reads (at_body v acc) c h = elim (Bool-cases (length acc + 1 == v)) [
  | inl last ↦
      ends (acc ++ c ∷ []) (ground (arith, h.0, h.1, length-append acc (c ∷ []))) (λ S f s. rw last)
  | inr more ↦
      reads (at_body v (acc ++ c ∷ [])) done
        (λ _. (ground (arith, h.0, length-append acc (c ∷ [])), h.1)) (λ S f s. rw more)
]

refused :
    (t t' : List Bytes) (b a' : Place) (e : Error)
    → Path
        (Parsed (List Bytes))
        (record { place = b; owner = t; status = err e })
        (record { place = a'; owner = t'; status = done })
    → ⊥
refused t t' b a' e q = cc

-- A parse that collects only adds to what was collected.
pub parse-IsPrefix :
    (bytes : Bytes) (a a' : Place) (t t' : List Bytes)
    → IsShort a
    → parse collect a bytes t ≡ record { place = a'; owner = t'; status = done }
    → IsPrefix t t'
unfolding parse entry_read IsShort
parse-IsPrefix [] a a' t t' h run = ([], append-nil t ∙ ap (λ p. p.owner) run)
parse-IsPrefix (c ∷ cs) a a' t t' h run = elim (parse_byte-Reads a c h) [
  | reads b (ok _) short next ↦
      parse-IsPrefix cs b a' t t' (short refl) (rw (next (List Bytes) collect t) at run)
  | reads b (err e) short next ↦
      absurd (refused t t' b a' e (rw (next (List Bytes) collect t) at run))
  | ends e short next ↦
      let (rest, whole) =
        parse-IsPrefix cs at_tag a' (push_back t e) t' tt
          (rw (next (List Bytes) collect t) at run) in
      (e ∷ rest, sym (append_assoc t (e ∷ []) rest) ∙ whole)
]

with_owner :
    {S : Type 0} {a a' : Place} {t t' : List Bytes} {s : S}
    → Path
        (Parsed (List Bytes))
        (record { place = a; owner = t; status = done })
        (record { place = a'; owner = t'; status = done })
    → Path
        (Parsed S)
        (record { place = a; owner = s; status = done })
        (record { place = a'; owner = s; status = done })
with_owner {S} {s} run =
    ap {B = Parsed S}
      (λ (p : Parsed (List Bytes)). record { place = p.place; owner = s; status = done }) run

after_answer :
    {S : Type 0} (on_entry : OnEntry S) (a : Place) (c : ℕ) (e cs : Bytes) (s s1 : S)
    → parse_byte on_entry a c s ≡ entry_read on_entry e s
    → on_entry e s ≡ (done, s1)
    → parse on_entry a (c ∷ cs) s ≡ parse on_entry at_tag cs s1
unfolding parse entry_read
after_answer {S} on_entry a c e cs s s1 next answer =
    ap (λ p. and_then p (λ a' s'. parse on_entry a' cs s')) (next ∙ answered)
  where
    answered :
        Path
          (Parsed S)
          (entry_read on_entry e s)
          (record { place = at_tag; owner = s1; status = done })
    answered =
        ap {B = Parsed S} (λ (q : Status × S). record { place = at_tag; owner = q.1; status = q.0 })
          answer

module _ {κ} {S : Type 0} (on_entry : OnEntry S) (es : List Bytes) (R : List Bytes → S → Type κ)
    (follows : (t : List Bytes) (e : Bytes) (s : S)
      → length e ≤ max_element_bytes
      → IsPrefix (push_back t e) es
      → R t s
      → (s' : S) × (on_entry e s ≡ (done, s')) × R (push_back t e) s') where
  -- Where the relation is kept for the prefixes of the entries to come, a parse that collects such a
  -- prefix is a parse of the other owner that refuses nothing and keeps the relation.
  pub parse-lockstep :
      (bytes : Bytes) (a a' : Place) (t t' : List Bytes) (s : S)
      → IsShort a
      → parse collect a bytes t ≡ record { place = a'; owner = t'; status = done }
      → IsPrefix t' es
      → R t s
      → (s' : S) × (parse on_entry a bytes s ≡ record { place = a'; owner = s'; status = done })
        × R t' s'
  unfolding parse entry_read IsShort
  parse-lockstep [] a a' t t' s h run prefix r =
      (s, with_owner run, subst (λ x. R x s) (ap (λ p. p.owner) run) r)
  parse-lockstep (c ∷ cs) a a' t t' s h run prefix r = elim (parse_byte-Reads a c h) [
    | reads b (ok _) short next ↦
        let (s', same, r') =
          parse-lockstep cs b a' t t' s (short refl) (rw (next (List Bytes) collect t) at run)
            prefix r in
        (s', rw (next S on_entry s) same, r')
    | reads b (err e) short next ↦
        absurd (refused t t' b a' e (rw (next (List Bytes) collect t) at run))
    | ends e short next ↦
        let more = rw (next (List Bytes) collect t) at run in
        let (rest, whole) = parse-IsPrefix cs at_tag a' (push_back t e) t' tt more in
        let (left, all) = prefix in
        let early : IsPrefix (push_back t e) es = (
          rest ++ left,
          sym (append_assoc (push_back t e) rest left) ∙ ap (λ x. x ++ left) whole ∙ all,
        ) in
        let (s1, answer, r1) = follows t e s short early r in
        let (s', same, r') = parse-lockstep cs at_tag a' (push_back t e) t' s1 tt more prefix r1 in
        (s', after_answer on_entry a c e cs s s1 (next S on_entry s) answer ∙ same, r')
  ]
