-- ===== src/Node/Match.antt =====
-- `PsiMatchWrap` of private_set_intersection/napi/psi_napi.cpp. A method returns its answer beside the
-- wrap as it leaves it.
use open_mined_psi.Base.{Bytes, Option, none, some}
use open_mined_psi.Status.{Error, Result, ok, err, Status}
use open_mined_psi.Match.Session.{
  PsiMatch, add_setup_bytes, seal_setup, match_response_piece, finish,
}
use open_mined_psi.JavaScript.{JsObject}
use open_mined_psi.JavaScript.Match.{MatchValue, match_value}
use open_mined_psi.Node.{
  Answer, returned, has_been_deleted, starved, Argument, byte_view, make_ok, make_error,
  status_only,
}

-- `match_`; `none` is a null pointer.
abbrev pub PsiMatchWrap : Type 0
PsiMatchWrap = Option PsiMatch

module _ (message : Error → Bytes) where
  -- The object for a status, beside the match.
  abbrev pub with_status_only :
      Option (Status × PsiMatch) → Answer (JsObject MatchValue) × PsiMatchWrap
  with_status_only none = (starved, none)
  with_status_only (some (status, m)) = (returned (status_only message status), some m)

  unfoldable pub node_add_setup_bytes :
      PsiMatchWrap → Argument → Answer (JsObject MatchValue) × PsiMatchWrap
  node_add_setup_bytes none argument = (has_been_deleted, none)
  node_add_setup_bytes (some m) argument = elim (byte_view argument) [
    | err e ↦ (returned (make_error message e), some m)
    | ok bytes ↦ with_status_only (add_setup_bytes m bytes)
  ]

  unfoldable pub node_seal_setup : PsiMatchWrap → Answer (JsObject MatchValue) × PsiMatchWrap
  node_seal_setup none = (has_been_deleted, none)
  node_seal_setup (some m) = with_status_only (seal_setup m)

  unfoldable pub node_match_response_piece :
      (Bytes → Result Bytes) → PsiMatchWrap → Argument → Answer (JsObject MatchValue) × PsiMatchWrap
  node_match_response_piece decrypt none argument = (has_been_deleted, none)
  node_match_response_piece decrypt (some m) argument = elim (byte_view argument) [
    | err e ↦ (returned (make_error message e), some m)
    | ok bytes ↦ with_status_only (match_response_piece decrypt m bytes)
  ]

  unfoldable pub node_finish : PsiMatchWrap → Answer (JsObject MatchValue) × PsiMatchWrap
  node_finish none = (has_been_deleted, none)
  node_finish (some m) = elim (finish m) [
    | none ↦ (starved, none)
    | some (err e, m') ↦ (returned (make_error message e), some m')
    | some (ok finished, m') ↦ (returned (make_ok (match_value m' finished)), some m')
  ]

unfoldable pub node_match_delete : PsiMatchWrap → PsiMatchWrap
node_match_delete self = none
