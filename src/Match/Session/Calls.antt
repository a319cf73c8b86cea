-- ===== src/Match/Session/Calls.antt =====
-- Calls of the methods of `PsiMatch` of private_set_intersection/cpp/psi_match.cpp, in any order.
use open_mined_psi.Base.{
  true, Bool, suc, ◌≡◌, refl, ap, ◌∙◌, Bytes, List, [], ◌∷◌, length, Option, some, Bool-cases, inl,
  inr,
}
use open_mined_psi.Status.{done, Error, Result, ok, err}
use open_mined_psi.Match.Reader.{at_entry_boundary}
use open_mined_psi.Match.Session.{
  k_matching, PsiMatch, create, k_finished, add_setup_bytes, seal_setup, match_response_piece,
  finish, PsiMatchResult, count_words,
}
use open_mined_psi.Match.Session.Failure.{
  MethodCall, call_setup_bytes, call_seal, call_piece, call_finish, step, run_calls, without_value,
  refusal,
}
use open_mined_psi.Match.Session.Invariant.{
  IsInOrder, create-IsInOrder, refused, filling, matching, finished, Returns, fail-Returns,
  unless_fine, add_setup_bytes-Returns, seal_setup-Returns,
}
use open_mined_psi.Match.Session.Pieces.{match_response_piece-Returns}

-- What `Finish` returns and leaves where nothing stands in its way.
unfoldable pub done_with : PsiMatch → Result PsiMatchResult × PsiMatch
done_with m = (
  ok (record {
    decrypted_count = m.response.decrypted_count;
    intersection_size = count_words m.response.matched_setup;
    response_indices = m.response.response_indices;
    setup_indices = m.response.setup_indices;
  }),
  record m {
    phase = k_finished;
    setup = record m.setup { store = record m.setup.store { setup_blocks = [] } };
    response = record m.response {
      batch = [];
      matched_setup = [];
      response_indices = [];
      setup_indices = [];
    };
  },
)

pub finish_whole :
    (m : PsiMatch)
    → m.failure ≡ done
    → m.phase ≡ k_matching
    → at_entry_boundary m.response_reader ≡ true
    → finish m ≡ some (done_with m)
unfolding finish done_with
finish_whole m fine p whole = unless_fine m _ fine ∙ simp (p, whole)

module _ (decrypt : Bytes → Result Bytes) where
  finish-Returns : (m : PsiMatch) → IsInOrder decrypt m → Returns decrypt (finish m)
  unfolding Returns finish done_with
  finish-Returns m (refused e bad) = (err e, m, rw bad, refused e bad)
  finish-Returns m (filling fine p s reader response) =
      rw (fine, p, finish) (fail-Returns decrypt PsiMatchResult m _)
  finish-Returns m (matching fine p reading f taken matched empty) =
      elim (Bool-cases (at_entry_boundary m.response_reader)) [
        | inl whole ↦
            ((done_with m).0, (done_with m).1, finish_whole m fine p whole, finished fine refl)
        | inr inside ↦ rw (fine, p, inside, finish) (fail-Returns decrypt PsiMatchResult m _)
      ]
  finish-Returns m (finished fine p) =
      rw (fine, p, finish) (fail-Returns decrypt PsiMatchResult m _)

  -- A call returns its refusal, if any, and leaves the fields in order.
  abbrev pub StepReturns : Option (Option Error × PsiMatch) → Type 0
  StepReturns o = (r : Option Error) × (m' : PsiMatch) × (o ≡ some (r, m')) × IsInOrder decrypt m'

  forget_value {ℓ} :
      {A : Type ℓ} (o : Option (Result A × PsiMatch))
      → Returns decrypt o
      → StepReturns (without_value o)
  unfolding Returns
  forget_value o (r, m', run, order) = (refusal r, m', rw run, order)

  pub step-StepReturns :
      (c : MethodCall) (m : PsiMatch) → IsInOrder decrypt m → StepReturns (step decrypt c m)
  unfolding step
  step-StepReturns (call_setup_bytes bytes) m h =
      forget_value (add_setup_bytes m bytes) (add_setup_bytes-Returns decrypt m bytes h)
  step-StepReturns call_seal m h = forget_value (seal_setup m) (seal_setup-Returns decrypt m h)
  step-StepReturns (call_piece bytes) m h =
      forget_value (match_response_piece decrypt m bytes)
        (match_response_piece-Returns decrypt m bytes h)
  step-StepReturns call_finish m h = forget_value (finish m) (finish-Returns m h)

  -- Any calls in any order, from fields in order, all return, one refusal or none for each, and leave
  -- the fields in order.
  pub run_calls-IsInOrder :
      (cs : List MethodCall) (m : PsiMatch)
      → IsInOrder decrypt m
      → (rs : List (Option Error)) × (m' : PsiMatch) × (run_calls decrypt cs m ≡ some (rs, m'))
        × (length rs ≡ length cs)
        × IsInOrder decrypt m'
  unfolding run_calls
  run_calls-IsInOrder [] m h = ([], m, refl, refl, h)
  run_calls-IsInOrder (c ∷ cs) m h =
      let (r, m', run, h') = step-StepReturns c m h in
      let (rs, m'', more, size, h'') = run_calls-IsInOrder cs m' h' in
      (r ∷ rs, m'', rw (run, more, run_calls), ap suc size, h'')

  -- Any calls of the four methods, in any order and with any bytes, on a match that `Create` made all
  -- return, with one refusal or none for each: no loop of theirs goes on for ever.
  pub run_calls-total :
      (reveal : Bool) (cs : List MethodCall)
      → (rs : List (Option Error)) × (m : PsiMatch) × (run_calls decrypt cs (create reveal)
          ≡ some (rs, m))
        × (length rs ≡ length cs)
  run_calls-total reveal cs =
      let (rs, m, ran, size, order) =
        run_calls-IsInOrder cs (create reveal) (create-IsInOrder decrypt reveal) in
      (rs, m, ran, size)
