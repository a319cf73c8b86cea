-- ===== src/Match/Setup/Rounds.antt =====
-- The round of `AddSetupBytes` of private_set_intersection/cpp/psi_match.cpp on the body of the setup,
-- against the reading of a setup one byte at a time.
use open_mined_psi.Base.{
  ℕ, zero, suc, ◌-◌, ◌<◌, min, ◌≡◌, ◌≢◌, refl, ap, ◌∙◌, true, false, Bytes, length, take, drop,
  ◌==◌, arith, Bool-cases, inl, inr, length-drop,
}
use open_mined_psi.Status.{err, Result-cases, done, Error, element_past_end, invalid_argument}
use open_mined_psi.Match.Reader.{EntryReader, feed, Fed, at_entry_boundary}
use open_mined_psi.Match.Reader.Parse.{Place, Parsed, parse, view}
use open_mined_psi.Match.Reader.Windows.{IsReading, Follows, feed-Follows}
use open_mined_psi.Match.Slots.{SetupStore, add_setup_element}
use open_mined_psi.Match.Setup.{k_body, Setup, end_raw, read_raw_body}
use open_mined_psi.Match.Setup.Frame.{
  inside, behind, on, and_stage, body_left, entries_read, stages, stages_body,
}
use open_mined_psi.Match.Setup.Stages.{stage_of, IsFraming, Agrees}

body_left_more : (n : ℕ) (a : Place) (s : SetupStore) → n ≢ 0 → body_left n a s ≡ on s (inside n a)
unfolding body_left
body_left_more zero a s h = absurd (h refl)
body_left_more (suc k) a s h = refl

body_left_whole :
    (r : EntryReader) (s : SetupStore)
    → at_entry_boundary r ≡ true
    → body_left 0 (view r) s ≡ on s behind
unfolding body_left view at_entry_boundary
body_left_whole r s h = ground arith

body_left_torn :
    (r : EntryReader) (s : SetupStore)
    → at_entry_boundary r ≡ false
    → body_left 0 (view r) s ≡ record { stage = err (invalid_argument element_past_end); slots = s }
unfolding body_left view at_entry_boundary
body_left_torn r s h = ground arith

-- The check at the end of the body.
end_raw-Agrees :
    (m p : Setup) (bytes rest : Bytes)
    → m.setup_frame ≡ k_body
    → IsReading m.setup_reader
    → length rest < length bytes
    → stages (stage_of p) bytes p.store
      ≡ and_stage (body_left m.raw_remaining (view m.setup_reader) m.store) (λ g s. stages g rest s)
    → Agrees p bytes (end_raw m rest)
unfolding end_raw stage_of
end_raw-Agrees m p bytes rest e v less h = elim (Bool-cases (m.raw_remaining == 0)) [
  | inl last ↦
      let none_left : m.raw_remaining ≡ 0 = ground arith in
      let h' = rw none_left at h in
      elim (Bool-cases (at_entry_boundary m.setup_reader)) [
        | inl whole ↦
            let met = body_left_whole m.setup_reader m.store whole in
            rw (last, whole, end_raw)
              (
                record {
                  unsized = λ q. cc;
                  untouched_tag = λ q. cc;
                  untouched_length = λ q. cc;
                  left = λ q. cc;
                  reading = λ q. cc;
                },
                less,
                h' ∙ ap (λ x. and_stage x (λ g s. stages g rest s)) met,
              )
        | inr torn ↦
            let met = body_left_torn m.setup_reader m.store torn in
            rw (last, torn, end_raw) (h' ∙ ap (λ x. and_stage x (λ g s. stages g rest s)) met)
      ]
  | inr more ↦
      let met = body_left_more m.raw_remaining (view m.setup_reader) m.store (ground arith) in
      rw (more, end_raw)
        (
          record {
            unsized = λ q. cc;
            untouched_tag = λ q. cc;
            untouched_length = λ q. cc;
            left = λ q. ground arith;
            reading = λ q. v;
          },
          less,
          h ∙ ap (λ x. and_stage x (λ g s. stages g rest s)) met ∙ rw (e, stage_of),
        )
]

stage_of_body :
    (m : Setup) → m.setup_frame ≡ k_body → stage_of m ≡ inside m.raw_remaining (view m.setup_reader)
unfolding stage_of
stage_of_body m e = rw (e, stage_of)

-- The reader's answer, as the stages see it.
fed_refused :
    (k : ℕ) (p : Parsed SetupStore) (fed : Fed SetupStore) (rest : Bytes) (x : Error)
    → p ≡ record { place = view fed.reader; owner = fed.owner; status = fed.status }
    → fed.status ≡ err x
    → and_stage (entries_read k p) (λ g s. stages g rest s)
      ≡ record { stage = err x; slots = fed.owner }
fed_refused k p fed rest x same bad = rw same (rw bad)

fed_fine :
    (k : ℕ) (p : Parsed SetupStore) (fed : Fed SetupStore)
    → p ≡ record { place = view fed.reader; owner = fed.owner; status = fed.status }
    → fed.status ≡ done
    → entries_read k p ≡ body_left k (view fed.reader) fed.owner
fed_fine k p fed same fine = rw same (rw fine)

body_taken : (k n : ℕ) → 0 < k → 0 < n → 0 < min k n
body_taken k n p q = omega arith

pub read_raw_body-Agrees :
    (m : Setup) (bytes : Bytes)
    → m.setup_frame ≡ k_body
    → IsFraming m
    → 0 < length bytes
    → Agrees m bytes (read_raw_body m bytes)
unfolding read_raw_body
read_raw_body-Agrees m bytes e v some_bytes = elim (Result-cases f.fed.status) [
  | inr (x, bad) ↦
      rw (f.ran, bad, read_raw_body)
        (staged ∙ fed_refused (m.raw_remaining - t) parsed f.fed (drop t bytes) x f.same bad)
  | inl (_, fine) ↦
      rw (f.ran, fine, read_raw_body)
        (end_raw-Agrees after m bytes (drop t bytes) e (f.reading fine)
          (omega (arith, length-drop t bytes, body_taken m.raw_remaining (length bytes), v.left e))
          (staged
            ∙ ap (λ x. and_stage x (λ g s. stages g (drop t bytes) s))
                (fed_fine (m.raw_remaining - t) parsed f.fed f.same fine)))
]
  where
    t : ℕ
    t = min m.raw_remaining (length bytes)

    parsed : Parsed SetupStore
    parsed = parse add_setup_element (view m.setup_reader) (take t bytes) m.store

    f :
        Follows add_setup_element parsed
          (feed add_setup_element m.setup_reader (take t bytes) m.store)
    f = feed-Follows add_setup_element m.setup_reader (take t bytes) m.store (v.reading e)

    after : Setup
    after = record m {
      setup_reader = f.fed.reader;
      store = f.fed.owner;
      raw_remaining = m.raw_remaining - t;
    }

    staged :
        stages (stage_of m) bytes m.store
        ≡ and_stage (entries_read (m.raw_remaining - t) parsed) (λ g s. stages g (drop t bytes) s)
    staged =
        ap (λ g. stages g bytes m.store) (stage_of_body m e)
        ∙ stages_body bytes m.raw_remaining t (view m.setup_reader) m.store (v.left e) refl
