-- ===== src/Match/Wire/Filling.antt =====
-- The calls that hand an encoded setup to `PsiMatch` of private_set_intersection/cpp/psi_match.cpp, in
-- windows cut anywhere, and seal it.
use open_mined_psi.Base.{
  ◌≡◌, refl, sym, ap, ◌∙◌, Bytes, List, [], ◌∷◌, ◌++◌, map, Option, none, some, inl, inr,
}
use mathlib.Core.List.{flatten}
use open_mined_psi.Status.{Error, Result, ok, err, done, Result-cases}
use open_mined_psi.Match.Reader.Parse.{view}
use open_mined_psi.Match.Slots.{SetupStore}
use open_mined_psi.Match.Setup.{Setup, k_done, read_setup}
use open_mined_psi.Match.Setup.Frame.{
  Stage, before, sizing, inside, behind, Staged, on, stages, stages-append,
}
use open_mined_psi.Match.Setup.Stages.{stage_of, IsFraming}
use open_mined_psi.Match.Setup.Windows.{read_setup-Follows}
use open_mined_psi.Match.Session.{PsiMatch, k_setup, add_setup_bytes, seal_setup}
use open_mined_psi.Match.Session.Failure.{
  call_setup_bytes, call_seal, step, run_calls, Frame-cases, without_value,
}
use open_mined_psi.Match.Session.Invariant.{unless_fine, sealed}

-- The calls were all answered without a refusal.
abbrev pub no_refusals {ℓ} : {A : Type ℓ} → List A → List (Option Error)
no_refusals xs = map (λ _. none) xs

-- Where two windows are read without a refusal, so is the first.
first_window :
    (g h : Stage) (x y : Bytes) (s t : SetupStore)
    → stages g (x ++ y) s ≡ on t h
    → (g' : Stage) × ((stages g x s).stage ≡ ok g') × (stages g' y (stages g x s).slots ≡ on t h)
first_window g h x y s t run =
    let parts = sym (stages-append g x y s) ∙ run in
    elim (Result-cases (stages g x s).stage) [
      | inl (g', fine) ↦ (g', fine, rw fine at parts)
      | inr (e, bad) ↦ absurd (refused e bad (rw bad at parts))
    ]
  where
    refused :
        (e : Error)
        → (stages g x s).stage ≡ err e
        → Path Staged (record { stage = err e; slots = (stages g x s).slots }) (on t h)
        → ⊥
    refused e bad q = cc

module _ (decrypt : Bytes → Result Bytes) where
  add_window :
      (m : PsiMatch) (w : Bytes) (setup : Setup)
      → m.failure ≡ done
      → m.phase ≡ k_setup
      → read_setup m.setup w ≡ some (done, setup)
      → step decrypt (call_setup_bytes w) m ≡ some (none, record m { setup = setup })
  unfolding step add_setup_bytes
  add_window m w setup fine p run =
      let ran : add_setup_bytes m w ≡ some (done, record m { setup = setup }) =
        unless_fine m _ fine ∙ simp (p, run) in
      ap without_value ran

  -- The windows are read as the bytes that they are cut from.
  pub setup_windows :
      (ws : List Bytes) (m : PsiMatch) (g : Stage) (s : SetupStore)
      → m.failure ≡ done
      → m.phase ≡ k_setup
      → IsFraming m.setup
      → stages (stage_of m.setup) (flatten ws) m.setup.store ≡ on s g
      → (setup : Setup) × (run_calls decrypt (map call_setup_bytes ws) m
          ≡ some (no_refusals ws, record m { setup = setup }))
        × (stage_of setup ≡ g)
        × (setup.store ≡ s)
  unfolding flatten stages run_calls
  setup_windows [] m g s fine p v run =
      (m.setup, refl, unstage m g s run, ap (λ (x : Staged). x.slots) run)
    where
      unstage :
          (m : PsiMatch) (g : Stage) (s : SetupStore)
          → Path Staged (on m.setup.store (stage_of m.setup)) (on s g)
          → stage_of m.setup ≡ g
      unstage m g s q = cc
  setup_windows (w ∷ ws) m g s fine p v run =
      let (g', first, rest) =
        first_window (stage_of m.setup) g w (flatten ws) m.setup.store s run in
      let f = read_setup-Follows m.setup w v in
      let (reached, v') = f.reached g' first in
      let (setup, more, end, store) =
        setup_windows ws (record m { setup = f.after }) g s fine p v'
          (ap (λ x. stages x (flatten ws) f.after.store) (sym reached)
            ∙ ap (λ x. stages g' (flatten ws) x) (sym f.slots)
            ∙ rest) in
      (setup, rw (add_window m w f.after fine p (f.ran ∙ rw first), more, run_calls), end, store)

  behind_done : (m : Setup) → stage_of m ≡ behind → m.setup_frame ≡ k_done
  unfolding stage_of
  behind_done m e = elim (Frame-cases m.setup_frame) [
    | inl whole ↦ whole
    | inr (inl cut) ↦ let q : before ≡ behind = rw (cut, stage_of) at e in cc
    | inr (inr (inl cut)) ↦
        let q : sizing m.raw_length m.raw_length_bytes ≡ behind = rw (cut, stage_of) at e in cc
    | inr (inr (inr cut)) ↦
        let q : inside m.raw_remaining (view m.setup_reader) ≡ behind = rw (cut, stage_of) at e in
        cc
  ]

  pub seal_behind :
      (m : PsiMatch)
      → m.failure ≡ done
      → m.phase ≡ k_setup
      → stage_of m.setup ≡ behind
      → step decrypt call_seal m ≡ some (none, sealed decrypt m)
  unfolding step seal_setup
  seal_behind m fine p e =
      let ran : seal_setup m ≡ some (done, sealed decrypt m) =
        unless_fine m _ fine ∙ simp (p, behind_done m.setup e) in
      ap without_value ran
