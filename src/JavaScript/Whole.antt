-- ===== src/JavaScript/Whole.antt =====
-- A whole use of `PsiMatch` from JavaScript, private_set_intersection/javascript/cpp/client.cpp.
use open_mined_psi.Base.{
  ◌+◌, ◌^◌, ◌≤◌, ◌<◌, ◌≡◌, refl, sym, ap, ◌∙◌, Bool, Bytes, List, [], ◌∷◌, ◌++◌, map, Option, none,
  some, length, append-nil, Option-cases, inl, inr, if◌then◌else◌,
}
use open_mined_psi.Status.{Error, Result, ok, err, Status, done}
use open_mined_psi.Match.Slots.{max_elements}
use open_mined_psi.Match.Slots.Add.{IsSorted}
use open_mined_psi.Match.Session.{
  PsiMatch, PsiMatchResult, create, decrypt_batch, add_setup_bytes, seal_setup,
  match_response_piece,
}
use open_mined_psi.Match.Session.Failure.{
  MethodCall, call_setup_bytes, call_seal, call_piece, step, run_calls, without_value,
}
use open_mined_psi.Match.Wire.{entries, setup_message, AllShort}
use open_mined_psi.Match.Wire.Filling.{no_refusals}
use open_mined_psi.Match.Wire.Whole.{expected, finish_lem}
use open_mined_psi.JavaScript.{JsObject, to_js_status}
use open_mined_psi.JavaScript.Match.{
  MatchValue, with_status, for_each_window, js_add_setup_bytes, js_seal_setup,
  js_match_response_piece, js_finish,
}
use open_mined_psi.JavaScript.Windows.{consume_all, for_each_window-consume_all}

-- A call that was not refused ended well.
pub not_refused :
    (o : Option (Status × PsiMatch)) (m : PsiMatch)
    → without_value o ≡ some (none, m)
    → o ≡ some (done, m)
not_refused none m h = cc
not_refused (some (ok _, m')) m h = let e : m' ≡ m = cc in ap (λ x. some (done, x)) e
not_refused (some (err e, m')) m h = let q : some e ≡ none = cc in cc

abbrev Ran : Type 0
Ran = Option (List (Option Error) × PsiMatch)

pub first_call :
    (decrypt : Bytes → Result Bytes) (c : MethodCall) (cs : List MethodCall) (m m' : PsiMatch)
    (r : Option Error) (rs : List (Option Error))
    → run_calls decrypt (c ∷ cs) m ≡ some (r ∷ rs, m')
    → (m1 : PsiMatch) × (step decrypt c m ≡ some (r, m1))
      × (run_calls decrypt cs m1 ≡ some (rs, m'))
unfolding run_calls
first_call decrypt c cs m m' r rs h = elim (Option-cases (step decrypt c m)) [
  | inl bad ↦ let q : Path Ran none (some (r ∷ rs, m')) = rw (bad, run_calls) at h in cc
  | inr ((r', m1), ran) ↦ elim (Option-cases (run_calls decrypt cs m1)) [
    | inl bad ↦ let q : Path Ran none (some (r ∷ rs, m')) = rw (ran, bad, run_calls) at h in cc
    | inr ((rs', m2), more) ↦
        let q : Path Ran (some (r' ∷ rs', m2)) (some (r ∷ rs, m')) =
          rw (ran, more, run_calls) at h in
        let first : r' ≡ r = cc in
        let rest : rs' ≡ rs = cc in
        let last : m2 ≡ m' = cc in
        (
          m1,
          ran ∙ ap (λ x. some (x, m1)) first,
          more ∙ ap (λ l. some (l, m2)) rest ∙ ap (λ x. some (rs, x)) last,
        )
  ]
]

module _ (decrypt : Bytes → Result Bytes) (call : Bytes → MethodCall)
    (consume : Bytes → PsiMatch → Option (Status × PsiMatch))
    (same : (b : Bytes) (m : PsiMatch)
      → step decrypt (call b) m ≡ without_value (consume b m)) where
  -- Windows that the calls take without a refusal are consumed, and the other calls go on from there.
  windows_taken :
      (ws : List Bytes) (cs : List MethodCall) (qs : List (Option Error)) (m m' : PsiMatch)
      → run_calls decrypt (map call ws ++ cs) m ≡ some (no_refusals ws ++ qs, m')
      → (m1 : PsiMatch) × (consume_all consume ws m ≡ some (done, m1))
        × (run_calls decrypt cs m1 ≡ some (qs, m'))
  unfolding consume_all
  windows_taken [] cs qs m m' h = (m, refl, h)
  windows_taken (w ∷ ws) cs qs m m' h =
      let (m1, ran, rest) =
        first_call decrypt (call w) (map call ws ++ cs) m m' none (no_refusals ws ++ qs) h in
      let taken = not_refused (consume w m) m1 (sym (same w m) ∙ ran) in
      let (m2, more, last) = windows_taken ws cs qs m1 m' rest in
      (m2, rw (taken, consume_all) more, last)

-- The object for a call that returns nothing and was not refused.
abbrev pub nothing_wrong : JsObject MatchValue
nothing_wrong = record { value = none; status = none }

object_of :
    (message : Error → Bytes) (o : Option (Status × PsiMatch)) (m : PsiMatch)
    → o ≡ some (done, m)
    → with_status message o ≡ some (nothing_wrong, m)
unfolding to_js_status
object_of message o m h = rw h refl

-- The object for the result of a match that reveals the intersection, or not.
abbrev pub result_object : Bool → PsiMatchResult → JsObject MatchValue
result_object reveal r = record {
  value = some (record {
    intersection_size = r.intersection_size;
    decrypted_count = r.decrypted_count;
    response_indices = if reveal then some r.response_indices else none;
    setup_indices = if reveal then some r.setup_indices else none;
  });
  status = none;
}

module _ (message : Error → Bytes) (decrypt : Bytes → Result Bytes) where
  -- From JavaScript, handed an encoded setup of strictly ascending elements of at most 33 bytes whose
  -- entries take fewer than 2^32 bytes, sealed, and then an encoded response of at most 2^32 - 1 such
  -- elements that decrypt, each in one array of at most 2^32 - 2^20 bytes, every call returns an object without a
  -- status, and that of `Finish` has the counts and, where they are revealed, the pairs that the whole
  -- setup and the whole response call for.
  pub js_finish-expected :
      (reveal : Bool) (es cs ps : List Bytes)
      → IsSorted es
      → AllShort es
      → length (entries es) < 2 ^ 32
      → AllShort cs
      → length cs ≤ max_elements
      → decrypt_batch decrypt cs ≡ ok ps
      → length (setup_message es) + 2 ^ 20 ≤ 2 ^ 32
      → length (entries cs) + 2 ^ 20 ≤ 2 ^ 32
      → (m1 m2 m3 m4 : PsiMatch) × (js_add_setup_bytes message (create reveal) (setup_message es)
          ≡ some (nothing_wrong, m1))
        × (js_seal_setup message m1 ≡ some (nothing_wrong, m2))
        × (js_match_response_piece message decrypt m2 (entries cs) ≡ some (nothing_wrong, m3))
        × (js_finish message m3 ≡ some (result_object reveal (expected reveal es ps), m4))
  unfolding js_add_setup_bytes js_seal_setup js_match_response_piece js_finish to_js_status step
      run_calls
  js_finish-expected reveal es cs ps sorted short fits short' limit plain es_fit cs_fit =
      let add : Bytes → PsiMatch → Option (Status × PsiMatch) = λ w m. add_setup_bytes m w in
      let piece : Bytes → PsiMatch → Option (Status × PsiMatch) =
        λ w m. match_response_piece decrypt m w in
      let (ws, setup, adding) = for_each_window-consume_all add (setup_message es) es_fit in
      let (vs, response, matching) = for_each_window-consume_all piece (entries cs) cs_fit in
      let (m, m4, calls, finished, mode) =
        finish_lem decrypt reveal es cs ps sorted short fits short' limit plain ws vs setup
          response in
      let (m1, added, after_setup) =
        windows_taken decrypt call_setup_bytes add (λ b x. refl) ws (call_seal ∷ map call_piece vs)
          (none ∷ no_refusals vs) (create reveal) m calls in
      let (m2, sealed, after_seal) =
        first_call decrypt call_seal (map call_piece vs) m1 m none (no_refusals vs) after_setup in
      let (m3, matched, after_pieces) =
        windows_taken decrypt call_piece piece (λ b x. refl) vs [] [] m2 m
          (rw (append-nil (map call_piece vs), append-nil (no_refusals vs)) after_seal) in
      let last : m3 ≡ m = cc in
      let matched' : consume_all piece vs m2 ≡ some (done, m) = rw last at matched in
      (
        m1,
        m2,
        m,
        m4,
        object_of message (for_each_window add (setup_message es) (create reveal)) m1
            (adding (create reveal) ∙ added),
        object_of message (seal_setup m1) m2 (not_refused (seal_setup m1) m2 sealed),
        object_of message (for_each_window piece (entries cs) m2) m (matching m2 ∙ matched'),
        rw (finished, js_finish) (rw mode refl),
      )
