-- ===== src/Match/Setup/Stages.antt =====
-- The fields of `AddSetupBytes` of private_set_intersection/cpp/psi_match.cpp between its rounds, and the
-- stage of the reading of a setup that they stand for.
use open_mined_psi.Base.{◌<◌, ◌≡◌, refl, Bytes, length}
use open_mined_psi.Status.{err}
use open_mined_psi.Match.Reader.{new_reader}
use open_mined_psi.Match.Reader.Parse.{view}
use open_mined_psi.Match.Reader.Windows.{IsReading}
use open_mined_psi.Match.Setup.{
  k_tag, k_length, k_body, k_done, Setup, Round, go, stop, starved, new_setup,
}
use open_mined_psi.Match.Setup.Frame.{Stage, before, sizing, inside, behind, stages}

-- The stage that the fields stand for.
unfoldable pub stage_of : Setup → Stage
stage_of m = elim m.setup_frame [
  | k_tag ↦ before
  | k_length ↦ sizing m.raw_length m.raw_length_bytes
  | k_body ↦ inside m.raw_remaining (view m.setup_reader)
  | k_done ↦ behind
]

-- Before the body the reader is new; in the body bytes are to come and the reader is in order.
pub record IsFraming (m : Setup) : Type 0 where
  pub unsized : m.setup_frame ≡ k_tag → (m.raw_length ≡ 0) × (m.raw_length_bytes ≡ 0)
  pub untouched_tag : m.setup_frame ≡ k_tag → m.setup_reader ≡ new_reader
  pub untouched_length : m.setup_frame ≡ k_length → m.setup_reader ≡ new_reader
  pub left : m.setup_frame ≡ k_body → 0 < m.raw_remaining
  pub reading : m.setup_frame ≡ k_body → IsReading m.setup_reader

pub new_setup-IsFraming : IsFraming new_setup
new_setup-IsFraming = record {
  unsized = λ _. (refl, refl);
  untouched_tag = λ _. refl;
  untouched_length = λ _. refl;
  left = λ h. cc;
  reading = λ h. cc;
}

-- A round agrees with the stages, keeps the fields in order and reads a byte.
abbrev pub Agrees : Setup → Bytes → Round → Type 0
Agrees m bytes (go m' rest) =
    IsFraming m'
    × (length rest < length bytes)
    × (stages (stage_of m) bytes m.store ≡ stages (stage_of m') rest m'.store)
Agrees m bytes (stop m' e) =
    stages (stage_of m) bytes m.store ≡ record { stage = err e; slots = m'.store }
Agrees m bytes starved = ⊥

pub new_reader-IsReading : IsReading new_reader
new_reader-IsReading = record { missing = λ h. cc; short = λ h. cc }
