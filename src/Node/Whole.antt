-- ===== src/Node/Whole.antt =====
-- A whole use of `PsiMatchWrap`, private_set_intersection/napi/psi_napi.cpp.
use mathlib.Core.List.{flatten}
use open_mined_psi.Base.{
  ◌^◌, ◌≤◌, ◌<◌, ◌≡◌, refl, Bool, Bytes, List, [], ◌∷◌, append-nil, Option, none, some, length,
}
use open_mined_psi.Status.{Error, Result, ok, Status, done}
use open_mined_psi.Match.Slots.{max_elements}
use open_mined_psi.Match.Slots.Add.{IsSorted}
use open_mined_psi.Match.Session.{
  PsiMatch, PsiMatchResult, create, decrypt_batch, add_setup_bytes, seal_setup,
  match_response_piece, finish,
}
use open_mined_psi.Match.Session.Failure.{call_setup_bytes, call_seal, call_piece, step, run_calls}
use open_mined_psi.Match.Wire.{entries, setup_message, AllShort}
use open_mined_psi.Match.Wire.Whole.{expected, finish_lem}
use open_mined_psi.JavaScript.Whole.{not_refused, first_call, nothing_wrong, result_object}
use open_mined_psi.Node.{returned, uint8_array, byte_view, make_ok, status_only}
use open_mined_psi.Node.Match.{
  PsiMatchWrap, with_status_only, node_add_setup_bytes, node_seal_setup, node_match_response_piece,
  node_finish,
}

taken :
    (message : Error → Bytes) (o : Option (Status × PsiMatch)) (m : PsiMatch)
    → o ≡ some (done, m)
    → with_status_only message o ≡ (returned nothing_wrong, some m)
unfolding status_only
taken message o m h = rw h refl

finish_object :
    (message : Error → Bytes) (reveal : Bool) (m m' : PsiMatch) (r : PsiMatchResult)
    → finish m ≡ some (ok r, m')
    → m'.reveal_intersection ≡ reveal
    → node_finish message (some m) ≡ (returned (result_object reveal r), some m')
unfolding node_finish make_ok
finish_object message reveal m m' r h e = rw (h, node_finish) (rw e refl)

module _ (message : Error → Bytes) (decrypt : Bytes → Result Bytes) where
  -- From Node, handed an encoded setup of strictly ascending elements of at most 33 bytes whose entries
  -- take fewer than 2^32 bytes, sealed, and then an encoded response of at most 2^32 - 1 such elements
  -- that decrypt, each in one `Uint8Array`, every call returns an object without a status, and that of
  -- `Finish` has the counts and, where they are revealed, the pairs that the setup and the response call
  -- for.
  pub node_finish-expected :
      (reveal : Bool) (es cs ps : List Bytes)
      → IsSorted es
      → AllShort es
      → length (entries es) < 2 ^ 32
      → AllShort cs
      → length cs ≤ max_elements
      → decrypt_batch decrypt cs ≡ ok ps
      → (w1 w2 w3 w4 : PsiMatchWrap) × (node_add_setup_bytes message
            (some (create reveal))
            (uint8_array (setup_message es))
          ≡ (returned nothing_wrong, w1))
        × (node_seal_setup message w1 ≡ (returned nothing_wrong, w2))
        × (node_match_response_piece message decrypt w2 (uint8_array (entries cs))
            ≡ (returned nothing_wrong, w3))
        × (node_finish message w3 ≡ (returned (result_object reveal (expected reveal es ps)), w4))
  unfolding node_add_setup_bytes node_seal_setup node_match_response_piece node_finish byte_view
      make_ok flatten step run_calls
  node_finish-expected reveal es cs ps sorted short fits short' limit plain =
      let (m, m4, calls, finished, mode) =
        finish_lem decrypt reveal es cs ps sorted short fits short' limit plain
          (setup_message es ∷ []) (entries cs ∷ []) (append-nil (setup_message es))
          (append-nil (entries cs)) in
      let (m1, added, after_setup) =
        first_call decrypt (call_setup_bytes (setup_message es))
          (call_seal ∷ call_piece (entries cs) ∷ []) (create reveal) m none (none ∷ none ∷ [])
          calls in
      let (m2, sealed, after_seal) =
        first_call decrypt call_seal (call_piece (entries cs) ∷ []) m1 m none (none ∷ [])
          after_setup in
      let (m3, matched, after_piece) =
        first_call decrypt (call_piece (entries cs)) [] m2 m none [] after_seal in
      let last : m3 ≡ m = cc in
      (
        some m1,
        some m2,
        some m,
        some m4,
        taken message (add_setup_bytes (create reveal) (setup_message es)) m1
            (not_refused (add_setup_bytes (create reveal) (setup_message es)) m1 added),
        taken message (seal_setup m1) m2 (not_refused (seal_setup m1) m2 sealed),
        taken message (match_response_piece decrypt m2 (entries cs)) m
            (not_refused (match_response_piece decrypt m2 (entries cs)) m (rw last at matched)),
        finish_object message reveal m m4 (expected reveal es ps) finished mode,
      )
