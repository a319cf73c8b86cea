-- ===== src/Match/Session/Failure.antt =====
-- The failure that `PsiMatch` of private_set_intersection/cpp/psi_match.cpp keeps.
use open_mined_psi.Base.{
  ◌≡◌, ◌⊎◌, refl, Bool-cases, inl, inr, Bytes, List, [], ◌∷◌, map, Option, none, some,
}
use open_mined_psi.Status.{Error, Result, ok, err, Status, Result-cases}
use open_mined_psi.Match.Reader.{Fed, at_entry_boundary}
use open_mined_psi.Match.Setup.{read_setup, SetupFrame, k_tag, k_length, k_body, k_done}
use open_mined_psi.Match.Session.{
  Response, PsiMatchResult, match_batch, end_piece, Phase, k_setup, k_matching, k_finished, fail,
  pass, unless_failed, PsiMatch, add_setup_bytes, seal_setup, match_response_piece, finish,
}

-- A call of a method.
pub data MethodCall : Type 0 where
  call_setup_bytes : Bytes → MethodCall
  call_seal : MethodCall
  call_piece : Bytes → MethodCall
  call_finish : MethodCall

-- The refusal of a call that refused.
abbrev pub refusal {ℓ} : {A : Type ℓ} → Result A → Option Error
refusal (ok a) = none
refusal (err e) = some e

abbrev pub without_value {ℓ} :
    {A : Type ℓ} → Option (Result A × PsiMatch) → Option (Option Error × PsiMatch)
without_value none = none
without_value (some (r, m)) = some (refusal r, m)

module _ (decrypt : Bytes → Result Bytes) where
  -- A call by its refusal, if any, and the state it leaves.
  unfoldable pub step : MethodCall → PsiMatch → Option (Option Error × PsiMatch)
  step (call_setup_bytes bytes) m = without_value (add_setup_bytes m bytes)
  step call_seal m = without_value (seal_setup m)
  step (call_piece bytes) m = without_value (match_response_piece decrypt m bytes)
  step call_finish m = without_value (finish m)

  step-failed :
      (c : MethodCall) (m : PsiMatch) (e : Error) → m.failure ≡ err e → step c m ≡ some (some e, m)
  unfolding step add_setup_bytes seal_setup match_response_piece finish
  step-failed (call_setup_bytes bytes) m e h = rw h
  step-failed call_seal m e h = rw h
  step-failed (call_piece bytes) m e h = rw h
  step-failed call_finish m e h = rw h

-- A refusal is kept.
abbrev Keeps {ℓ} : {A : Type ℓ} → Option (Result A × PsiMatch) → Type 0
Keeps none = Unit
Keeps (some (ok a, m)) = Unit
Keeps (some (err e, m)) = m.failure ≡ err e

pub Phase-cases : (p : Phase) → (p ≡ k_setup) ⊎ ((p ≡ k_matching) ⊎ (p ≡ k_finished))
Phase-cases k_setup = inl refl
Phase-cases k_matching = inr (inl refl)
Phase-cases k_finished = inr (inr refl)

fail-Keeps {ℓ} : (A : Type ℓ) (m : PsiMatch) (e : Error) → Keeps {A = A} (some (fail m e))
unfolding fail
fail-Keeps A m e = refl

module _ {ℓ} {A : Type ℓ} where
  bind-Keeps {κ} :
      {X : Type κ} (o : Option X) (f : X → Option (Result A × PsiMatch))
      → ((x : X) → Keeps (f x))
      → Keeps (elim o as (λ _. Option (Result A × PsiMatch)) [ none ↦ none | some x ↦ f x ])
  bind-Keeps none f k = tt
  bind-Keeps (some x) f k = k x

  unless_failed-Keeps :
      (m : PsiMatch) (o : Option (Result A × PsiMatch)) → Keeps o → Keeps (unless_failed m o)
  unless_failed-Keeps m o k = elim (Result-cases m.failure) [
    | inl (_, fine) ↦ rw (fine, unless_failed) k
    | inr (e, bad) ↦ rw (bad, unless_failed) bad
  ]

pass-Keeps : (status : Status) (m : PsiMatch) → Keeps (some (pass status m))
pass-Keeps (ok _) m = tt
pass-Keeps (err e) m = fail-Keeps Unit m e

add_setup_bytes-Keeps : (m : PsiMatch) (bytes : Bytes) → Keeps (add_setup_bytes m bytes)
unfolding add_setup_bytes
add_setup_bytes-Keeps m bytes = unless_failed-Keeps m _ (elim (Phase-cases m.phase) [
  | inl p ↦
      rw (p, add_setup_bytes)
        (bind-Keeps (read_setup m.setup bytes) _
          (λ (status, s). pass-Keeps status (record m { setup = s })))
  | inr (inl p) ↦ rw (p, add_setup_bytes) (fail-Keeps Unit m _)
  | inr (inr p) ↦ rw (p, add_setup_bytes) (fail-Keeps Unit m _)
])

pub Frame-cases : (f : SetupFrame) → (f ≡ k_done) ⊎ ((f ≡ k_tag) ⊎ ((f ≡ k_length) ⊎ (f ≡ k_body)))
Frame-cases k_tag = inr (inl refl)
Frame-cases k_length = inr (inr (inl refl))
Frame-cases k_body = inr (inr (inr refl))
Frame-cases k_done = inl refl

seal_setup-Keeps : (m : PsiMatch) → Keeps (seal_setup m)
unfolding seal_setup
seal_setup-Keeps m = unless_failed-Keeps m _ (elim (Phase-cases m.phase) [
  | inl p ↦ elim (Frame-cases m.setup.setup_frame) [
    | inl f ↦ rw (p, f, seal_setup) tt
    | inr (inl f) ↦ rw (p, f, seal_setup) (fail-Keeps Unit m _)
    | inr (inr (inl f)) ↦ rw (p, f, seal_setup) (fail-Keeps Unit m _)
    | inr (inr (inr f)) ↦ rw (p, f, seal_setup) (fail-Keeps Unit m _)
  ]
  | inr (inl p) ↦ rw (p, seal_setup) (fail-Keeps Unit m _)
  | inr (inr p) ↦ rw (p, seal_setup) (fail-Keeps Unit m _)
])

finish-Keeps : (m : PsiMatch) → Keeps (finish m)
unfolding finish
finish-Keeps m = unless_failed-Keeps m _ (elim (Phase-cases m.phase) [
  | inl p ↦ rw (p, finish) (fail-Keeps PsiMatchResult m _)
  | inr (inl p) ↦ elim (Bool-cases (at_entry_boundary m.response_reader)) [
    | inl whole ↦ rw (p, whole, finish) tt
    | inr cut ↦ rw (p, cut, finish) (fail-Keeps PsiMatchResult m _)
  ]
  | inr (inr p) ↦ rw (p, finish) (fail-Keeps PsiMatchResult m _)
])

module _ (decrypt : Bytes → Result Bytes) where
  end_piece-Keeps :
      (m : PsiMatch) (status : Status) (r : Response) → Keeps (end_piece decrypt m status r)
  unfolding end_piece
  end_piece-Keeps m (err e) r = fail-Keeps Unit (record m { response = r }) e
  end_piece-Keeps m (ok _) r =
      bind-Keeps (match_batch m.reveal_intersection m.setup.store decrypt r) _
        (λ (status, r'). pass-Keeps status (record m { response = r' }))

  match_response_piece-Keeps :
      (m : PsiMatch) (bytes : Bytes) → Keeps (match_response_piece decrypt m bytes)
  unfolding match_response_piece
  match_response_piece-Keeps m bytes = unless_failed-Keeps m _ (elim (Phase-cases m.phase) [
    | inl p ↦ rw (p, match_response_piece) (fail-Keeps Unit m _)
    | inr (inl p) ↦
        rw (p, match_response_piece)
          (bind-Keeps _ _ (λ (fed : Fed (Option Response)).
            bind-Keeps fed.owner _
              (λ r. end_piece-Keeps (record m { response_reader = fed.reader }) fed.status r)))
    | inr (inr p) ↦ rw (p, match_response_piece) (fail-Keeps Unit m _)
  ])

  refused {ℓ} :
      {A : Type ℓ} (o : Option (Result A × PsiMatch)) (e : Error) (m' : PsiMatch)
      → Keeps o
      → without_value o ≡ some (some e, m')
      → m'.failure ≡ err e
  refused none e m' k h = cc
  refused (some (ok a, m)) e m' k h = cc
  refused (some (err x, m)) e m' k h = cc

  step-Keeps :
      (c : MethodCall) (m : PsiMatch) (e : Error) (m' : PsiMatch)
      → step decrypt c m ≡ some (some e, m')
      → m'.failure ≡ err e
  unfolding step
  step-Keeps (call_setup_bytes bytes) m e m' h =
      refused (add_setup_bytes m bytes) e m' (add_setup_bytes-Keeps m bytes) h
  step-Keeps call_seal m e m' h = refused (seal_setup m) e m' (seal_setup-Keeps m) h
  step-Keeps (call_piece bytes) m e m' h =
      refused (match_response_piece decrypt m bytes) e m' (match_response_piece-Keeps m bytes) h
  step-Keeps call_finish m e m' h = refused (finish m) e m' (finish-Keeps m) h

  -- The refusals of a run of calls, and the state it leaves.
  unfoldable pub run_calls : List MethodCall → PsiMatch → Option (List (Option Error) × PsiMatch)
  run_calls [] m = some ([], m)
  run_calls (c ∷ cs) m = elim (step decrypt c m) [
    | none ↦ none
    | some (r, m') ↦ elim (run_calls cs m') [ none ↦ none | some (rs, m'') ↦ some (r ∷ rs, m'') ]
  ]

  run_failed :
      (cs : List MethodCall) (m : PsiMatch) (e : Error)
      → m.failure ≡ err e
      → run_calls cs m ≡ some (map (λ _. some e) cs, m)
  unfolding run_calls
  run_failed [] m e h = refl
  run_failed (c ∷ cs) m e h = rw (step-failed decrypt c m e h, run_failed cs m e h, run_calls)

  -- Once a call has refused, every later call, in any number and order, refuses with the same error and
  -- changes nothing.
  pub step-sticky :
      (c : MethodCall) (m m' : PsiMatch) (e : Error)
      → step decrypt c m ≡ some (some e, m')
      → (cs : List MethodCall) → run_calls cs m' ≡ some (map (λ _. some e) cs, m')
  step-sticky c m m' e h cs = run_failed cs m' e (step-Keeps c m e m' h)
