-- ===== src/JavaScript/Match.antt =====
-- `PsiMatch` of private_set_intersection/javascript/cpp/client.cpp. A call returns its object beside the
-- match as it leaves it, and `none` where a loop ran out of fuel.
use open_mined_psi.Base.{
  ℕ, zero, suc, ◌+◌, ◌-◌, ◌%◌, ◌^◌, ◌==◌, leb, min, Bytes, List, [], length, take, drop, Option,
  none, some, if◌then◌else◌,
}
use open_mined_psi.Status.{Error, Result, ok, err, Status, done}
use open_mined_psi.Match.Session.{
  PsiMatch, PsiMatchResult, add_setup_bytes, seal_setup, match_response_piece, finish,
}
use open_mined_psi.JavaScript.{JsObject, to_js_status}

abbrev pub window_bytes : ℕ
window_bytes = 2 ^ 20

-- A `std::size_t` of WebAssembly has 32 bits, so the length is cut and `at` wraps around.
module _ {ℓ} {S : Type ℓ} (consume : Bytes → S → Option (Status × S)) (bytes : Bytes) where
  -- The loop over windows of `window` bytes from `at` on, on fuel; `none` where it runs out.
  unfoldable pub window_loop : ℕ → ℕ → ℕ → ℕ → S → Option (Status × S)
  window_loop length' window zero at s = none
  window_loop length' window (suc fuel) at s =
      if leb length' at
      then some (done, s)
      else let size = min window (length' - at) in
        elim (consume (take size (drop at bytes)) s) [
          | none ↦ none
          | some (err e, s') ↦ some (err e, s')
          | some (ok _, s') ↦ window_loop length' window fuel ((at + window) % 2 ^ 32) s'
        ]

  -- Each window has a byte at least.
  unfoldable pub for_each_window : S → Option (Status × S)
  for_each_window s =
      let length' = length bytes % 2 ^ 32 in
      if length' == 0
      then consume [] s
      else window_loop length' (min length' window_bytes) (length' + 1) 0 s

-- The object that `Finish` returns in `Value`; `none` is `null`.
pub record MatchValue : Type 0 where
  pub intersection_size : ℕ
  pub decrypted_count : ℕ
  pub response_indices : Option (List ℕ)
  pub setup_indices : Option (List ℕ)

-- The `Value` for a match that reveals the intersection, or not.
abbrev pub match_value : PsiMatch → PsiMatchResult → MatchValue
match_value self finished = record {
  intersection_size = finished.intersection_size;
  decrypted_count = finished.decrypted_count;
  response_indices = if self.reveal_intersection then some finished.response_indices else none;
  setup_indices = if self.reveal_intersection then some finished.setup_indices else none;
}

module _ (message : Error → Bytes) where
  -- The object for a status, beside the match.
  abbrev pub with_status : Option (Status × PsiMatch) → Option (JsObject MatchValue × PsiMatch)
  with_status none = none
  with_status (some (status, m)) = some (to_js_status message status, m)

  unfoldable pub js_add_setup_bytes : PsiMatch → Bytes → Option (JsObject MatchValue × PsiMatch)
  js_add_setup_bytes self bytes =
      with_status (for_each_window (λ window m. add_setup_bytes m window) bytes self)

  unfoldable pub js_seal_setup : PsiMatch → Option (JsObject MatchValue × PsiMatch)
  js_seal_setup self = with_status (seal_setup self)

  unfoldable pub js_match_response_piece :
      (Bytes → Result Bytes) → PsiMatch → Bytes → Option (JsObject MatchValue × PsiMatch)
  js_match_response_piece decrypt self bytes =
      with_status (for_each_window (λ window m. match_response_piece decrypt m window) bytes self)

  unfoldable pub js_finish : PsiMatch → Option (JsObject MatchValue × PsiMatch)
  js_finish self = elim (finish self) [
    | none ↦ none
    | some (err e, m) ↦ some (to_js_status message {S = PsiMatchResult} (err e), m)
    | some (ok finished, m) ↦
        some (record { value = some (match_value m finished); status = none }, m)
  ]
