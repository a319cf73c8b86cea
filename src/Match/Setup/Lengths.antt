-- ===== src/Match/Setup/Lengths.antt =====
-- The rounds of `AddSetupBytes` of private_set_intersection/cpp/psi_match.cpp on the tag and the length of
-- the setup, against the reading of a setup one byte at a time.
use open_mined_psi.Base.{
  ℕ, zero, suc, ◌≡◌, refl, sym, ap, ◌∙◌, true, Bytes, ◌∷◌, ◌==◌, arith, Bool-cases, inl, inr,
}
use open_mined_psi.Status.{server_setup, ok, Result-cases}
use open_mined_psi.Match.Reader.{new_reader, add_varint32_byte, Varint32}
use open_mined_psi.Match.Reader.Parse.{at_tag, view}
use open_mined_psi.Match.Slots.{SetupStore}
use open_mined_psi.Match.Setup.{
  k_tag, k_length, Setup, go, read_raw_tag, begin_raw, read_raw_length,
}
use open_mined_psi.Match.Setup.Frame.{sizing, on, and_stage, body_left, stage_byte, stages}
use open_mined_psi.Match.Setup.Stages.{stage_of, IsFraming, Agrees, new_reader-IsReading}

pub read_raw_tag-Agrees :
    (m : Setup) (c : ℕ) (rest : Bytes)
    → m.setup_frame ≡ k_tag
    → IsFraming m
    → Agrees m (c ∷ rest) (read_raw_tag m c rest)
unfolding read_raw_tag stage_of stages stage_byte
read_raw_tag-Agrees m c rest e v = ground (arith, v.unsized e, v.untouched_tag e)

begin_raw-IsFraming : (m : Setup) → m.setup_reader ≡ new_reader → IsFraming (begin_raw m)
unfolding begin_raw
begin_raw-IsFraming m e = elim (Bool-cases (m.raw_length == 0)) [
  | inl empty ↦ rw empty (record {
    unsized = λ h. cc;
    untouched_tag = λ h. cc;
    untouched_length = λ h. cc;
    left = λ h. cc;
    reading = λ h. cc;
  })
  | inr more ↦ rw more (record {
    unsized = λ h. cc;
    untouched_tag = λ h. cc;
    untouched_length = λ h. cc;
    left = λ h. ground arith;
    reading = λ h. rw e new_reader-IsReading;
  })
]

begin_raw-stage_at :
    (n : ℕ) (m : Setup)
    → m.raw_length ≡ n
    → m.setup_reader ≡ new_reader
    → body_left n at_tag m.store ≡ on m.store (stage_of (begin_raw m))
unfolding begin_raw stage_of view body_left
begin_raw-stage_at zero m n e = ground arith
begin_raw-stage_at (suc k) m n e = ground arith

begin_raw-stage :
    (m : Setup)
    → m.setup_reader ≡ new_reader
    → body_left m.raw_length at_tag m.store ≡ on m.store (stage_of (begin_raw m))
begin_raw-stage m e = begin_raw-stage_at m.raw_length m refl e

begin_raw-store : (m : Setup) → (begin_raw m).store ≡ m.store
unfolding begin_raw
begin_raw-store m = refl

stage_of_length :
    (m : Setup) → m.setup_frame ≡ k_length → stage_of m ≡ sizing m.raw_length m.raw_length_bytes
unfolding stage_of
stage_of_length m e = rw (e, stage_of)

stage_byte_sized :
    (v n c : ℕ) (s : SetupStore) (w : Varint32)
    → add_varint32_byte c v n server_setup ≡ ok w
    → w.complete ≡ true
    → stage_byte (sizing v n) c s ≡ body_left w.value at_tag s
unfolding stage_byte
stage_byte_sized v n c s w h whole = ground arith

-- The byte that completes the length.
raw_length_sized :
    (m : Setup) (c : ℕ) (rest : Bytes) (w : Varint32)
    → m.setup_frame ≡ k_length
    → m.setup_reader ≡ new_reader
    → add_varint32_byte c m.raw_length m.raw_length_bytes server_setup ≡ ok w
    → w.complete ≡ true
    → Agrees m (c ∷ rest) (read_raw_length m c rest)
unfolding read_raw_length stages
raw_length_sized m c rest w e new h whole =
    let m' = record m { raw_length = w.value; raw_length_bytes = w.bytes_read } in
    let read : read_raw_length m c rest ≡ go (begin_raw m') rest = ground arith in
    let byte = stage_byte_sized m.raw_length m.raw_length_bytes c m.store w h whole in
    rw read (
      begin_raw-IsFraming m' new,
      omega arith,
      ap (λ g. and_stage (stage_byte g c m.store) (λ g' s'. stages g' rest s'))
            (stage_of_length m e)
          ∙ ap (λ p. and_stage p (λ g' s'. stages g' rest s')) (byte ∙ begin_raw-stage m' new)
          ∙ ap (λ s. stages (stage_of (begin_raw m')) rest s) (sym (begin_raw-store m')),
    )

pub read_raw_length-Agrees :
    (m : Setup) (c : ℕ) (rest : Bytes)
    → m.setup_frame ≡ k_length
    → IsFraming m
    → Agrees m (c ∷ rest) (read_raw_length m c rest)
unfolding read_raw_length stage_of stages stage_byte
read_raw_length-Agrees m c rest e v =
    elim (Result-cases (add_varint32_byte c m.raw_length m.raw_length_bytes server_setup)) [
      | inr (x, h) ↦ ground arith
      | inl (w, h) ↦ elim (Bool-cases w.complete) [
        | inr more ↦ ground (arith, v.untouched_length e)
        | inl whole ↦ raw_length_sized m c rest w e (v.untouched_length e) h whole
      ]
    ]
