-- ===== src/Match/Session/Pieces.antt =====
-- `MatchResponsePiece` of private_set_intersection/cpp/psi_match.cpp: what a window of the response
-- leaves.
use open_mined_psi.Base.{
  ◌<◌, ◌≤◌, push_back, ◌≡◌, refl, ap, ◌∙◌, Bool, Bytes, List, [], length, Option, none, some, inl,
  inr, arith, subst,
}
use open_mined_psi.Status.{Error, Result, ok, err, Status, done}
use open_mined_psi.Match.Reader.{EntryReader, feed, Fed, max_element_bytes}
use open_mined_psi.Match.Reader.Parse.{Parsed, view}
use open_mined_psi.Match.Reader.Keeps.{parse-Kept, view-IsShort}
use open_mined_psi.Match.Reader.Windows.{IsReading, feed-Follows}
use open_mined_psi.Match.Slots.{SetupStore}
use open_mined_psi.Match.Setup.Filled.{IsFilled}
use open_mined_psi.Match.Session.{
  PsiMatch, k_matching, Response, fail, add_response_element, batch_elements, match_response_piece,
  end_piece,
}
use open_mined_psi.Match.Session.Batch.{
  IsMatching, matches_all, refuses, match_batch-BatchRuns, add_response_element-Taken,
}
use open_mined_psi.Match.Session.Invariant.{
  IsInOrder, refused, filling, matching, finished, Returns, fail-Returns, unless_fine,
}

module _ (decrypt : Bytes → Result Bytes) where
  -- While a window is fed: the elements taken, or any response once one was refused.
  abbrev Feeding : Bool → List Bytes → Status → Option Response → Type 0
  Feeding reveal es (ok _) none = ⊥
  Feeding reveal es (ok _) (some r) =
      (taken : List Bytes) × IsMatching decrypt reveal es taken r
      × (length r.batch < batch_elements)
  Feeding reveal es (err _) none = ⊥
  Feeding reveal es (err _) (some r) = Unit

  Feeding-err :
      (reveal : Bool) (es : List Bytes) (e : Error) (o : Option Response)
      → Feeding reveal es done o
      → Feeding reveal es (err e) o
  Feeding-err reveal es e none h = h
  Feeding-err reveal es e (some r) h = tt

  add_response_element-Feeding :
      (reveal : Bool) (s : SetupStore) (f : IsFilled s) (entry : Bytes) (o : Option Response)
      → length entry ≤ max_element_bytes
      → Feeding reveal f.elements done o
      → Feeding reveal f.elements
          (add_response_element reveal s decrypt entry o).0
          (add_response_element reveal s decrypt entry o).1
  add_response_element-Feeding reveal s f entry none short h = absurd h
  add_response_element-Feeding reveal s f entry (some r) short (taken, m, small) =
      elim (add_response_element-Taken decrypt reveal f.elements s f.holds f.sorted f.room taken
        entry r m small) [
          | inl (r', run, m', small') ↦ rw run (push_back taken entry, m', small')
          | inr (x, r', run, _) ↦ rw run tt
        ]

  -- What `Feed` of a window of the response leaves.
  pub data Window (reveal : Bool) (s : SetupStore) (f : IsFilled s)
      (o : Option (Fed (Option Response))) : Type 0 where
    read_whole :
        (reader : EntryReader) (r : Response) (taken : List Bytes)
        → o ≡ some (record { reader = reader; owner = some r; status = done })
        → IsReading reader
        → IsMatching decrypt reveal f.elements taken r
        → Window reveal s f o
    read_cut :
        (reader : EntryReader) (r : Response) (e : Error)
        → o ≡ some (record { reader = reader; owner = some r; status = err e })
        → Window reveal s f o

  Window-of :
      (reveal : Bool) (s : SetupStore) (f : IsFilled s) (o : Option (Fed (Option Response)))
      (reader : EntryReader) (owner : Option Response) (status : Status)
      → o ≡ some (record { reader = reader; owner = owner; status = status })
      → (status ≡ done → IsReading reader)
      → Feeding reveal f.elements status owner
      → Window reveal s f o
  Window-of reveal s f o reader none (ok _) ran reading h = absurd h
  Window-of reveal s f o reader (some r) (ok _) ran reading (taken, m, small) =
      read_whole reader r taken ran (reading refl) m
  Window-of reveal s f o reader none (err e) ran reading h = absurd h
  Window-of reveal s f o reader (some r) (err e) ran reading h = read_cut reader r e ran

  feed-Window :
      (reveal : Bool) (s : SetupStore) (f : IsFilled s) (reader : EntryReader) (bytes : Bytes)
      (r : Response) (taken : List Bytes)
      → IsReading reader
      → IsMatching decrypt reveal f.elements taken r
      → r.batch ≡ []
      → Window reveal s f (feed (add_response_element reveal s decrypt) reader bytes (some r))
  feed-Window reveal s f reader bytes r taken v m empty =
      let on_entry = add_response_element reveal s decrypt in
      let fed = feed-Follows on_entry reader bytes (some r) v in
      let kept =
        (parse-Kept on_entry (Feeding reveal f.elements) (Feeding-err reveal f.elements)
          (add_response_element-Feeding reveal s f) (view reader) bytes (some r)
          (view-IsShort reader v) (taken, m, omega (arith, ap length empty))).0 in
      Window-of reveal s f _ fed.fed.reader fed.fed.owner fed.fed.status fed.ran fed.reading (
        subst (λ (p : Parsed (Option Response)). Feeding reveal f.elements p.status p.owner)
          fed.same kept)

  pub end_piece-Returns :
      (m : PsiMatch) (r : Response) (f : IsFilled m.setup.store) (taken : List Bytes)
      → m.failure ≡ done
      → m.phase ≡ k_matching
      → IsReading m.response_reader
      → IsMatching decrypt m.reveal_intersection f.elements taken r
      → Returns decrypt (end_piece decrypt m done r)
  unfolding Returns end_piece fail
  end_piece-Returns m r f taken fine p reading matched =
      elim (match_batch-BatchRuns decrypt m.reveal_intersection f.elements m.setup.store f.holds
        f.sorted f.room taken r matched) [
          | matches_all r' run matched' empty ↦ (
            done,
            record m { response = r' },
            rw (run, end_piece),
            matching fine p reading f taken matched' empty,
          )
          | refuses e run bad ↦ (
            err e,
            record m { response = r; failure = err e },
            rw (run, end_piece),
            refused e refl,
          )
        ]

  pub window_piece :
      (m : PsiMatch) (bytes : Bytes) (reader : EntryReader) (r : Response) (status : Status)
      → m.failure ≡ done
      → m.phase ≡ k_matching
      → feed
          (add_response_element m.reveal_intersection m.setup.store decrypt)
          m.response_reader
          bytes
          (some m.response)
        ≡ some (record { reader = reader; owner = some r; status = status })
      → match_response_piece decrypt m bytes
        ≡ end_piece decrypt (record m { response_reader = reader }) status r
  unfolding match_response_piece
  window_piece m bytes reader r status fine p run = unless_fine m _ fine ∙ simp (p, run)

  pub match_response_piece-Returns :
      (m : PsiMatch) (bytes : Bytes)
      → IsInOrder decrypt m
      → Returns decrypt (match_response_piece decrypt m bytes)
  unfolding Returns match_response_piece end_piece fail
  match_response_piece-Returns m bytes (refused e bad) = (err e, m, rw bad, refused e bad)
  match_response_piece-Returns m bytes (filling fine p s reader response) =
      rw (fine, p, match_response_piece) (fail-Returns decrypt Unit m _)
  match_response_piece-Returns m bytes (matching fine p reading f taken matched empty) =
      elim (feed-Window m.reveal_intersection m.setup.store f m.response_reader bytes m.response
        taken reading matched empty) [
          | read_whole reader r taken' run reading' matched' ↦
              let (r', m', ends, order) =
                end_piece-Returns (record m { response_reader = reader }) r f taken' fine p reading'
                  matched' in
              (r', m', window_piece m bytes reader r done fine p run ∙ ends, order)
          | read_cut reader r e run ↦ (
            err e,
            record m { response_reader = reader; response = r; failure = err e },
            window_piece m bytes reader r (err e) fine p run,
            refused e refl,
          )
        ]
  match_response_piece-Returns m bytes (finished fine p) =
      rw (fine, p, match_response_piece) (fail-Returns decrypt Unit m _)
