-- ===== src/Match/Wire/Whole.antt =====
-- A whole use of `PsiMatch` of private_set_intersection/cpp/psi_match.{h,cpp}: an encoded setup and an
-- encoded response in windows cut anywhere.
use open_mined_psi.Base.{
  ℕ, ◌^◌, ◌≤◌, ◌<◌, ◌≡◌, refl, sym, ap, ◌∙◌, subst, Bool, true, Bytes, List, [], ◌∷◌, ◌++◌, map,
  Option, none, some, length, get_or, append-nil, append_assoc, arith, Option-cases, inl, inr,
  if◌then◌else◌,
}
use mathlib.Core.List.{flatten}
use open_mined_psi.Status.{Error, Result, ok, done}
use open_mined_psi.Match.Reader.{State, k_tag, k_length, k_body, EntryReader, at_entry_boundary}
use open_mined_psi.Match.Reader.Parse.{at_tag, at_length, at_body, view, parse}
use open_mined_psi.Match.Slots.{max_elements}
use open_mined_psi.Match.Slots.Holds.{Holds}
use open_mined_psi.Match.Slots.Add.{IsSorted}
use open_mined_psi.Match.Slots.{no_setup}
use open_mined_psi.Match.Setup.Filled.{IsFilled}
use open_mined_psi.Match.Setup.Frame.{before, behind, on, stages}
use open_mined_psi.Match.Setup.Stages.{stage_of, new_setup-IsFraming, new_reader-IsReading}
use open_mined_psi.Match.Session.{PsiMatch, PsiMatchResult, create, decrypt_batch, finish}
use open_mined_psi.Match.Session.Tally.{sum_below, sum_below_ext}
use open_mined_psi.Match.Session.Matching.{occurs, matches, Matched}
use open_mined_psi.Match.Session.Batch.{IsMatching, fresh-IsMatching}
use open_mined_psi.Match.Session.Failure.{
  MethodCall, call_setup_bytes, call_seal, call_piece, step, run_calls,
}
use open_mined_psi.Match.Session.Invariant.{sealed, after_seal}
use open_mined_psi.Match.Session.Calls.{done_with, finish_whole}
use open_mined_psi.Match.Wire.{entries, setup_message, AllShort}
use open_mined_psi.Match.Wire.Entries.{collect, parse-entries}
use open_mined_psi.Match.Wire.Setup.{stages-setup_message, length-entries}
use open_mined_psi.Match.Wire.Filling.{no_refusals, setup_windows, seal_behind}
use open_mined_psi.Match.Wire.Response.{At, response_windows}

-- What a match of the decrypted response `ps` against the setup `es` is to learn.
unfoldable pub expected : Bool → List Bytes → List Bytes → PsiMatchResult
expected reveal es ps = record {
  decrypted_count = length ps;
  intersection_size = sum_below (length es) (λ i. occurs ps (get_or es i []));
  response_indices = if reveal then map (λ (a : ℕ × ℕ). a.0) (matches es 0 ps) else [];
  setup_indices = if reveal then map (λ (a : ℕ × ℕ). a.1) (matches es 0 ps) else [];
}

-- The calls of a whole use, but for the last.
abbrev pub whole_use : List Bytes → List Bytes → List MethodCall
whole_use ws vs = map call_setup_bytes ws ++ call_seal ∷ map call_piece vs

abbrev Ran : Type 0
Ran = Option (List (Option Error) × PsiMatch)

run_calls-append :
    (decrypt : Bytes → Result Bytes) (xs ys : List MethodCall) (m m1 m2 : PsiMatch)
    (rs qs : List (Option Error))
    → run_calls decrypt xs m ≡ some (rs, m1)
    → run_calls decrypt ys m1 ≡ some (qs, m2)
    → run_calls decrypt (xs ++ ys) m ≡ some (rs ++ qs, m2)
unfolding run_calls
run_calls-append decrypt [] ys m m1 m2 rs qs h k =
    let same : m ≡ m1 = cc in let nothing : [] ≡ rs = cc in rw (same, k, sym nothing)
run_calls-append decrypt (x ∷ xs) ys m m1 m2 rs qs h k = elim (Option-cases (step decrypt x m)) [
  | inl bad ↦ let q : Path Ran none (some (rs, m1)) = rw (bad, run_calls) at h in cc
  | inr ((r, m'), ran) ↦ elim (Option-cases (run_calls decrypt xs m')) [
    | inl bad ↦ let q : Path Ran none (some (rs, m1)) = rw (ran, bad, run_calls) at h in cc
    | inr ((rs', m''), more) ↦
        let q : Path Ran (some (r ∷ rs', m'')) (some (rs, m1)) = rw (ran, more, run_calls) at h in
        let same : m1 ≡ m'' = cc in
        let front : r ∷ rs' ≡ rs = cc in
        let rest = run_calls-append decrypt xs ys m' m'' m2 rs' qs more (rw same at k) in
        rw (ran, rest, run_calls) (ap (λ l. some (l ++ qs, m2)) front)
  ]
]

boundary : (r : EntryReader) → view r ≡ at_tag → at_entry_boundary r ≡ true
unfolding view at_entry_boundary
boundary r e = by_state r.state refl
  where
    by_state : (state : State) → r.state ≡ state → at_entry_boundary r ≡ true
    by_state k_tag s = rw (s, at_entry_boundary)
    by_state k_length s =
        let q : at_length r.entry_length r.length_bytes ≡ at_tag = rw (s, view) at e in cc
    by_state k_body s = let q : at_body r.entry_length r.body ≡ at_tag = rw (s, view) at e in cc

-- What a match with its batch empty says of a response that decrypts to `ps`.
matching_result :
    (decrypt : Bytes → Result Bytes) (reveal : Bool) (es cs ps : List Bytes) (m : PsiMatch)
    → decrypt_batch decrypt cs ≡ ok ps
    → m.reveal_intersection ≡ reveal
    → IsMatching decrypt m.reveal_intersection es cs m.response
    → m.response.batch ≡ []
    → (done_with m).0 ≡ ok (expected reveal es ps)
unfolding done_with expected
matching_result decrypt reveal es cs ps m plain mode matching empty =
    let all : matching.matched_ones ≡ cs =
      sym (append-nil matching.matched_ones)
      ∙ ap (λ b. matching.matched_ones ++ b) (sym empty)
      ∙ sym matching.parts in
    let twice : ok matching.plains ≡ ok ps =
      sym matching.decrypted ∙ ap (decrypt_batch decrypt) all ∙ plain in
    let same : matching.plains ≡ ps = cc in
    let matched : Matched reveal es ps m.response =
      subst (λ l. Matched reveal es l m.response) same (rw mode at matching.matched) in
    let count : m.response.decrypted_count ≡ length ps = matching.count_is ∙ ap length same in
    let size = matched.tally.counted ∙ sum_below_ext (length es) _ _ matched.marked in
    rw (count, size, matched.response_is, matched.setup_is)

module _ (decrypt : Bytes → Result Bytes) (reveal : Bool) (es cs ps : List Bytes)
    (sorted : IsSorted es) (short : AllShort es) (fits : length (entries es) < 2 ^ 32)
    (answers_short : AllShort cs) (limit : length cs ≤ max_elements)
    (plain : decrypt_batch decrypt cs ≡ ok ps) where
  bound : length es ≤ max_elements
  bound = omega (arith, length-entries es)

  -- The setup handed over and sealed.
  sealed_match :
      (ws : List Bytes)
      → flatten ws ≡ setup_message es
      → (m : PsiMatch) × (run_calls decrypt
            (map call_setup_bytes ws ++ call_seal ∷ [])
            (create reveal)
          ≡ some (no_refusals ws ++ none ∷ [], m))
        × At decrypt es cs ps sorted bound plain limit m at_tag []
        × (m.reveal_intersection ≡ reveal)
  unfolding create run_calls stage_of
  sealed_match ws whole =
      let (s, read, holds) = stages-setup_message es sorted short bound fits in
      let (setup, ran, end, store) =
        setup_windows decrypt ws (create reveal) behind s refl refl new_setup-IsFraming
          (subst (λ b. stages before b no_setup ≡ on s behind) (sym whole) read) in
      let m = record (create reveal) { setup = setup } in
      let held : Holds setup.store es = subst (λ x. Holds x es) (sym store) holds in
      let answer = seal_behind decrypt m refl refl end in
      let calls : run_calls decrypt (call_seal ∷ []) m ≡ some (none ∷ [], sealed decrypt m) =
        rw (answer, run_calls) in
      let filled : IsFilled setup.store = record {
        elements = es;
        holds = held;
        sorted = sorted;
        room = bound;
      } in
      (
        sealed decrypt m,
        run_calls-append decrypt (map call_setup_bytes ws) (call_seal ∷ []) (create reveal) m
            (sealed decrypt m) (no_refusals ws) (none ∷ []) ran calls,
        record {
          fine = refl;
          phase_is = refl;
          reading = new_reader-IsReading;
          place = unfold view in refl;
          holds = held;
          matching =
              subst (IsMatching decrypt reveal es []) (sym (after_seal decrypt m refl filled))
                (fresh-IsMatching decrypt reveal es);
          empty = refl;
        },
        refl,
      )

  -- A whole use, with the mode that the match keeps.
  pub finish_lem :
      (ws vs : List Bytes)
      → flatten ws ≡ setup_message es
      → flatten vs ≡ entries cs
      → (m m' : PsiMatch) × (run_calls decrypt
            (map call_setup_bytes ws ++ call_seal ∷ map call_piece vs)
            (create reveal)
          ≡ some (no_refusals ws ++ none ∷ no_refusals vs, m))
        × (finish m ≡ some (ok (expected reveal es ps), m'))
        × (m'.reveal_intersection ≡ reveal)
  unfolding done_with
  finish_lem ws vs setup response =
      let (m0, ran0, at0, mode0) = sealed_match ws setup in
      let read : parse collect at_tag (flatten vs) []
          ≡ record { place = at_tag; owner = cs; status = done } =
        ap (λ b. parse collect at_tag b []) response ∙ parse-entries cs [] answers_short in
      let (m, ran, at, mode) =
        response_windows decrypt es cs ps sorted bound plain limit vs m0 at_tag at_tag [] cs at0
          read ([], append-nil cs) in
      let result =
        matching_result decrypt reveal es cs ps m plain (mode ∙ mode0) at.matching at.empty in
      let both =
        run_calls-append decrypt (map call_setup_bytes ws ++ call_seal ∷ []) (map call_piece vs)
          (create reveal) m0 m (no_refusals ws ++ none ∷ []) (no_refusals vs) ran0 ran in
      let calls = append_assoc (map call_setup_bytes ws) (call_seal ∷ []) (map call_piece vs) in
      let answers = append_assoc (no_refusals ws) (none ∷ []) (no_refusals vs) in
      (
        m,
        (done_with m).1,
        rw (calls, answers) at both,
        finish_whole m at.fine at.phase_is (boundary m.response_reader at.place)
            ∙ ap (λ r. some (r, (done_with m).1)) result,
        mode ∙ mode0,
      )

  -- Handed an encoded setup and an encoded response, in windows cut anywhere, the match refuses
  -- nothing and its result is the one to expect.
  pub finish-expected :
      (ws vs : List Bytes)
      → flatten ws ≡ setup_message es
      → flatten vs ≡ entries cs
      → (m m' : PsiMatch) × (run_calls decrypt
            (map call_setup_bytes ws ++ call_seal ∷ map call_piece vs)
            (create reveal)
          ≡ some (no_refusals ws ++ none ∷ no_refusals vs, m))
        × (finish m ≡ some (ok (expected reveal es ps), m'))
  finish-expected ws vs setup response =
      let (m, m', calls, result, _) = finish_lem ws vs setup response in (m, m', calls, result)
