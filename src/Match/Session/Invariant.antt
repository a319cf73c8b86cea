-- ===== src/Match/Session/Invariant.antt =====
-- The states that the methods of `PsiMatch` of private_set_intersection/cpp/psi_match.cpp reach, in
-- any order of calls.
use open_mined_psi.Base.{
  ◌/◌, ◌+◌, ◌≡◌, refl, sym, ◌∙◌, replicate, Bool, Bytes, List, [], length, Option, some, inl, inr,
  subst,
}
use open_mined_psi.Status.{Error, Result, err, done, Result-cases}
use open_mined_psi.Match.Reader.{new_reader}
use open_mined_psi.Match.Reader.Windows.{IsReading}
use open_mined_psi.Match.Setup.Stages.{new_reader-IsReading, new_setup-IsFraming}
use open_mined_psi.Match.Setup.Filled.{IsSetup, IsFilled, no_setup-IsFilled, read_setup-IsSetup}
use open_mined_psi.Match.Session.{
  PsiMatch, k_setup, k_matching, k_finished, no_response, create, fail, add_setup_bytes, seal_setup,
  unless_failed,
}
use open_mined_psi.Match.Session.Matching.{fresh}
use open_mined_psi.Match.Session.Batch.{IsMatching, fresh-IsMatching}
use open_mined_psi.Match.Session.Failure.{Frame-cases}

pub unless_fine {ℓ} :
    {A : Type ℓ} (m : PsiMatch) (o : Option (Result A × PsiMatch))
    → m.failure ≡ done
    → unless_failed m o ≡ o
unless_fine m o fine = rw (fine, unless_failed)

module _ (decrypt : Bytes → Result Bytes) where
  -- A refusal is kept, or the fields are in order for the phase: while matching, the elements `taken`
  -- of the whole windows so far are decrypted and matched with those of the setup.
  pub data IsInOrder (m : PsiMatch) : Type 0 where
    refused : (e : Error) → m.failure ≡ err e → IsInOrder m
    filling :
        m.failure ≡ done
        → m.phase ≡ k_setup
        → IsSetup m.setup
        → m.response_reader ≡ new_reader
        → m.response ≡ no_response
        → IsInOrder m
    matching :
        m.failure ≡ done
        → m.phase ≡ k_matching
        → IsReading m.response_reader
        → (f : IsFilled m.setup.store) (taken : List Bytes)
        → IsMatching decrypt m.reveal_intersection f.elements taken m.response
        → m.response.batch ≡ []
        → IsInOrder m
    finished : m.failure ≡ done → m.phase ≡ k_finished → IsInOrder m

  pub create-IsInOrder : (reveal : Bool) → IsInOrder (create reveal)
  unfolding create
  create-IsInOrder reveal =
      filling refl refl (record { framing = new_setup-IsFraming; filled = no_setup-IsFilled }) refl
        refl

  abbrev pub sealed : PsiMatch → PsiMatch
  sealed m = record m {
    response = record m.response {
      matched_setup = replicate ((m.setup.store.setup_count + 63) / 64) 0;
    };
    phase = k_matching;
  }

  pub after_seal :
      (m : PsiMatch)
      → m.response ≡ no_response
      → (f : IsFilled m.setup.store) → (sealed m).response ≡ fresh (length f.elements)
  after_seal m response f = rw (response, f.holds.count_is)

  -- A call returns, and leaves the fields in order.
  unfoldable pub Returns {ℓ} : {A : Type ℓ} → Option (Result A × PsiMatch) → Type ℓ
  Returns {A = A} o = (r : Result A) × (m' : PsiMatch) × (o ≡ some (r, m')) × IsInOrder m'

  pub fail-Returns {ℓ} : (A : Type ℓ) (m : PsiMatch) (e : Error) → Returns {A = A} (some (fail m e))
  unfolding fail Returns
  fail-Returns A m e = (err e, record m { failure = err e }, refl, refused e refl)

  pub add_setup_bytes-Returns :
      (m : PsiMatch) (bytes : Bytes) → IsInOrder m → Returns (add_setup_bytes m bytes)
  unfolding Returns add_setup_bytes fail
  add_setup_bytes-Returns m bytes (refused e bad) = (err e, m, rw bad, refused e bad)
  add_setup_bytes-Returns m bytes (filling fine p s reader response) =
      let (status, setup, run, more) = read_setup-IsSetup m.setup bytes s in
      elim (Result-cases status) [
        | inl (_, good) ↦ (
          done,
          record m { setup = setup },
          unless_fine m _ fine ∙ simp (p, run, good),
          filling fine p (more good) reader response,
        )
        | inr (e, bad) ↦ (
          err e,
          record m { setup = setup; failure = err e },
          unless_fine m _ fine ∙ simp (p, run, bad, fail),
          refused e refl,
        )
      ]
  add_setup_bytes-Returns m bytes (matching fine p reader f taken matched empty) =
      rw (fine, p, add_setup_bytes) (fail-Returns Unit m _)
  add_setup_bytes-Returns m bytes (finished fine p) =
      rw (fine, p, add_setup_bytes) (fail-Returns Unit m _)

  pub seal_setup-Returns : (m : PsiMatch) → IsInOrder m → Returns (seal_setup m)
  unfolding Returns seal_setup
  seal_setup-Returns m (refused e bad) = (err e, m, rw bad, refused e bad)
  seal_setup-Returns m (filling fine p s reader response) = elim (Frame-cases m.setup.setup_frame) [
    | inl whole ↦ (
      done,
      sealed m,
      unless_fine m _ fine ∙ simp (p, whole),
      matching fine refl (rw reader new_reader-IsReading) s.filled []
          (subst (IsMatching decrypt m.reveal_intersection s.filled.elements [])
            (sym (after_seal m response s.filled))
            (fresh-IsMatching decrypt m.reveal_intersection s.filled.elements))
          (rw response),
    )
    | inr (inl cut) ↦ rw (fine, p, cut, seal_setup) (fail-Returns Unit m _)
    | inr (inr (inl cut)) ↦ rw (fine, p, cut, seal_setup) (fail-Returns Unit m _)
    | inr (inr (inr cut)) ↦ rw (fine, p, cut, seal_setup) (fail-Returns Unit m _)
  ]
  seal_setup-Returns m (matching fine p reader f taken matched empty) =
      rw (fine, p, seal_setup) (fail-Returns Unit m _)
  seal_setup-Returns m (finished fine p) = rw (fine, p, seal_setup) (fail-Returns Unit m _)
