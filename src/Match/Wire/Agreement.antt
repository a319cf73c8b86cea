-- ===== src/Match/Wire/Agreement.antt =====
-- The streaming match of private_set_intersection/cpp/psi_match.cpp and the intersection that `PsiClient`
-- takes over a `Raw` setup, private_set_intersection/cpp/datastructure/raw.cpp.
use open_mined_psi.Base.{
  ◌^◌, ◌≤◌, ◌<◌, ◌≡◌, sym, Bool, Bytes, List, ◌∷◌, ◌++◌, map, none, some, length,
}
use mathlib.Core.List.{flatten}
use open_mined_psi.Status.{Result, ok}
use open_mined_psi.Containers.Raw.{intersect}
use open_mined_psi.Match.Slots.{max_elements}
use open_mined_psi.Match.Slots.Add.{IsSorted}
use open_mined_psi.Match.Session.{PsiMatch, PsiMatchResult, create, decrypt_batch, finish}
use open_mined_psi.Match.Session.Failure.{call_setup_bytes, call_seal, call_piece, run_calls}
use open_mined_psi.Match.Wire.{entries, setup_message, AllShort}
use open_mined_psi.Match.Wire.Filling.{no_refusals}
use open_mined_psi.Match.Wire.Whole.{expected, finish-expected}
use open_mined_psi.Match.Wire.Sizing.{length-intersect}

-- Handed an encoded setup of strictly ascending short elements and an encoded response that decrypts to
-- `ps`, in windows cut anywhere, the match refuses nothing, and the size that `Finish` returns is that of
-- the intersection that `Raw::Intersect` takes of the setup with `ps`.
pub finish-intersect :
    (decrypt : Bytes → Result Bytes) (reveal : Bool) (es cs ps : List Bytes)
    → IsSorted es
    → AllShort es
    → length (entries es) < 2 ^ 32
    → AllShort cs
    → length cs ≤ max_elements
    → decrypt_batch decrypt cs ≡ ok ps
    → (ws vs : List Bytes) → flatten ws ≡ setup_message es
    → flatten vs ≡ entries cs
    → (m m' : PsiMatch) × (result : PsiMatchResult) × (run_calls decrypt
          (map call_setup_bytes ws ++ call_seal ∷ map call_piece vs)
          (create reveal)
        ≡ some (no_refusals ws ++ none ∷ no_refusals vs, m))
      × (finish m ≡ some (ok result, m'))
      × (result.intersection_size ≡ length (intersect es ps))
unfolding expected
finish-intersect decrypt reveal es cs ps sorted short fits answers limit plain ws vs setup
      response =
    let (m, m', ran, done) =
      finish-expected decrypt reveal es cs ps sorted short fits answers limit plain ws vs setup
        response in
    (m, m', expected reveal es ps, ran, done, sym (length-intersect es ps sorted))
