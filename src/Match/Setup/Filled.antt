-- ===== src/Match/Setup/Filled.antt =====
-- The slots that the bytes of a setup fill, by `AddSetupBytes` of
-- private_set_intersection/cpp/psi_match.cpp.
use open_mined_psi.Base.{
  ℕ, zero, suc, ◌-◌, ◌≤◌, ◌≡◌, refl, Bytes, List, [], ◌∷◌, length, ◌==◌, arith, Bool-cases, inl,
  inr, length-append, push_back, some,
}
use open_mined_psi.Status.{ok, err, Status, done, Result-cases, server_setup}
use open_mined_psi.Match.Reader.{max_element_bytes, field1_length_delimited, add_varint32_byte}
use open_mined_psi.Match.Reader.Parse.{Place, at_tag, at_length, at_body, Parsed, parse_byte}
use open_mined_psi.Match.Reader.Keeps.{IsShort, parse_byte-Kept, view-IsShort}
use open_mined_psi.Match.Slots.{SetupStore, no_setup, add_setup_element, max_elements}
use open_mined_psi.Match.Slots.Holds.{Holds, no_setup-Holds, write_slot-Holds}
use open_mined_psi.Match.Slots.Add.{
  IsSorted, IsSorted-nil, IsSorted-push_back, add_setup_element-Accepts, Accepts-of_done,
}
use open_mined_psi.Match.Setup.{Setup, SetupFrame, k_tag, k_length, k_body, k_done, read_setup}
use open_mined_psi.Match.Setup.Frame.{
  Stage, before, sizing, inside, behind, Staged, body_left, entries_read, stage_byte, stages,
}
use open_mined_psi.Match.Setup.Stages.{stage_of, IsFraming}
use open_mined_psi.Match.Setup.Windows.{read_setup-Follows}

-- The slots hold strictly ascending elements, and there is a place for each index below the limit.
pub record IsFilled (s : SetupStore) : Type 0 where
  pub elements : List Bytes
  pub holds : Holds s elements
  pub sorted : IsSorted elements
  pub room : length elements ≤ max_elements

pub no_setup-IsFilled : IsFilled no_setup
no_setup-IsFilled = record {
  elements = [];
  holds = no_setup-Holds;
  sorted = IsSorted-nil;
  room = omega arith;
}

abbrev Unless : Status → SetupStore → Type 0
Unless (ok _) s = IsFilled s
Unless (err _) s = Unit

add_setup_element-IsFilled :
    (entry : Bytes) (s : SetupStore)
    → length entry ≤ max_element_bytes
    → IsFilled s
    → Unless (add_setup_element entry s).0 (add_setup_element entry s).1
add_setup_element-IsFilled entry s short f = elim (Result-cases (add_setup_element entry s).0) [
  | inl (_, fine) ↦
      let taken = Accepts-of_done s f.elements entry f.holds fine in
      rw (add_setup_element-Accepts s f.elements entry f.holds taken) (record {
        elements = push_back f.elements entry;
        holds = write_slot-Holds s f.elements f.holds entry short;
        sorted = IsSorted-push_back f.elements entry f.sorted taken;
        room = omega (arith, length-append f.elements (entry ∷ []), taken.0);
      })
  | inr (e, bad) ↦ rw bad tt
]

-- The body's place is in order.
abbrev IsShortStage : Stage → Type 0
IsShortStage before = Unit
IsShortStage (sizing v n) = Unit
IsShortStage (inside k a) = IsShort a
IsShortStage behind = Unit

abbrev Filled : Staged → Type 0
Filled p = elim p.stage [ ok g ↦ IsShortStage g × IsFilled p.slots | err _ ↦ Unit ]

body_left-Filled :
    (k : ℕ) (a : Place) (s : SetupStore) → IsShort a → IsFilled s → Filled (body_left k a s)
unfolding body_left
body_left-Filled (suc k) a s h f = (h, f)
body_left-Filled zero at_tag s h f = (tt, f)
body_left-Filled zero (at_length v n) s h f = tt
body_left-Filled zero (at_body v b) s h f = tt

entries_read-Filled :
    (k : ℕ) (p : Parsed SetupStore)
    → Unless p.status p.owner
    → (p.status ≡ done → IsShort p.place)
    → Filled (entries_read k p)
entries_read-Filled k p f short = elim (Result-cases p.status) [
  | inl (_, fine) ↦ rw fine (body_left-Filled k p.place p.owner (short fine) (rw fine at f))
  | inr (e, bad) ↦ rw bad tt
]

stage_byte-Filled :
    (g : Stage) (c : ℕ) (s : SetupStore) → IsShortStage g → IsFilled s → Filled (stage_byte g c s)
unfolding stage_byte IsShort
stage_byte-Filled before c s h f = elim (Bool-cases (c == field1_length_delimited)) [
  | inl field ↦ rw field (tt, f)
  | inr other ↦ rw other tt
]
stage_byte-Filled (sizing v n) c s h f =
    elim (Result-cases (add_varint32_byte c v n server_setup)) [
      | inl (w, read) ↦ elim (Bool-cases w.complete) [
        | inl whole ↦ rw (read, whole, stage_byte) (body_left-Filled w.value at_tag s tt f)
        | inr part ↦ rw (read, part, stage_byte) (tt, f)
      ]
      | inr (e, bad) ↦ rw (bad, stage_byte) tt
    ]
stage_byte-Filled (inside k a) c s h f =
    let (filled, short) =
      parse_byte-Kept add_setup_element Unless (λ e s p. tt) add_setup_element-IsFilled a c s h f in
    entries_read-Filled (k - 1) (parse_byte add_setup_element a c s) filled short
stage_byte-Filled behind c s h f = tt

stages-Filled :
    (g : Stage) (bytes : Bytes) (s : SetupStore)
    → IsShortStage g
    → IsFilled s
    → Filled (stages g bytes s)
unfolding stages
stages-Filled g [] s h f = (h, f)
stages-Filled g (c ∷ cs) s h f =
    let p = stage_byte g c s in
    let kept = stage_byte-Filled g c s h f in
    elim (Result-cases p.stage) [
      | inl (g', fine) ↦
          let (short, filled) = rw fine at kept in
          rw (fine, stages) (stages-Filled g' cs p.slots short filled)
      | inr (e, bad) ↦ rw (bad, stages) tt
    ]

stage_of-IsShortStage : (m : Setup) → IsFraming m → IsShortStage (stage_of m)
unfolding stage_of
stage_of-IsShortStage m v = by_frame m.setup_frame refl
  where
    by_frame : (frame : SetupFrame) → m.setup_frame ≡ frame → IsShortStage (stage_of m)
    by_frame k_tag e = rw (e, stage_of) tt
    by_frame k_length e = rw (e, stage_of) tt
    by_frame k_body e = rw (e, stage_of) (view-IsShort m.setup_reader (v.reading e))
    by_frame k_done e = rw (e, stage_of) tt

-- A setup in order.
pub record IsSetup (m : Setup) : Type 0 where
  pub framing : IsFraming m
  pub filled : IsFilled m.store

-- A window is read to its end or refused, and unless it is refused the setup stays in order.
pub read_setup-IsSetup :
    (m : Setup) (bytes : Bytes)
    → IsSetup m
    → (status : Status) × (m' : Setup) × (read_setup m bytes ≡ some (status, m'))
      × (status ≡ done → IsSetup m')
read_setup-IsSetup m bytes v =
    let f = read_setup-Follows m bytes v.framing in
    let p = stages (stage_of m) bytes m.store in
    let kept =
      stages-Filled (stage_of m) bytes m.store (stage_of-IsShortStage m v.framing) v.filled in
    elim (Result-cases p.stage) [
      | inl (g, fine) ↦
          let (short, filled) = rw fine at kept in
          (
            done,
            f.after,
            rw fine at f.ran,
            λ _. record { framing = (f.reached g fine).1; filled = rw f.slots at filled },
          )
      | inr (e, bad) ↦ (err e, f.after, rw bad at f.ran, λ h. cc)
    ]
