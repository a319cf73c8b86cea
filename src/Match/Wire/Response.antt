-- ===== src/Match/Wire/Response.antt =====
-- The windows of an encoded response, as `MatchResponsePiece` of
-- private_set_intersection/cpp/psi_match.cpp matches them.
use open_mined_psi.Base.{
  ◌≤◌, ◌≡◌, refl, sym, ap, ap₂, ◌∙◌, subst, Bytes, List, [], ◌∷◌, ◌++◌, map, Option, none, some,
  length, inl, inr, append_assoc,
}
use mathlib.Core.List.{flatten}
use open_mined_psi.Status.{Result, ok, err, Status, done, Result-cases}
use open_mined_psi.Match.Reader.{EntryReader, feed, Fed}
use open_mined_psi.Match.Reader.Parse.{Place, Parsed, parse, parse-append, view}
use open_mined_psi.Match.Reader.Keeps.{IsShort, view-IsShort, parse-Kept}
use open_mined_psi.Match.Reader.Windows.{IsReading, feed-Follows}
use open_mined_psi.Match.Slots.{max_elements}
use open_mined_psi.Match.Slots.Add.{IsSorted}
use open_mined_psi.Match.Session.{
  PsiMatch, decrypt_batch, add_response_element, end_piece, match_response_piece,
}
use open_mined_psi.Match.Session.Batch.{matches_all, refuses, match_batch-BatchRuns}
use open_mined_psi.Match.Session.Failure.{call_piece, step, run_calls, without_value}
use open_mined_psi.Match.Session.Pieces.{window_piece}
use open_mined_psi.Match.Wire.{IsPrefix}
use open_mined_psi.Match.Wire.Entries.{collect}
use open_mined_psi.Match.Wire.Lockstep.{parse-IsPrefix}
use open_mined_psi.Match.Wire.Filling.{no_refusals}
use open_mined_psi.Match.Wire.Taken.{Stands, fed_window, never_refused}

-- `Feed` of a window that the parse reads to its end.
fed_whole :
    {S : Type 0} (on_entry : Bytes → S → Status × S) (reader : EntryReader) (w : Bytes)
    (a a' : Place) (s s' : S)
    → IsReading reader
    → view reader ≡ a
    → parse on_entry a w s ≡ record { place = a'; owner = s'; status = done }
    → (reader' : EntryReader) × (feed on_entry reader w s
        ≡ some (record { reader = reader'; owner = s'; status = done }))
      × IsReading reader'
      × (view reader' ≡ a')
fed_whole {S} on_entry reader w a a' s s' v at run =
    let f = feed-Follows on_entry reader w s v in
    let same : Path (Parsed S)
        (record { place = view f.fed.reader; owner = f.fed.owner; status = f.fed.status })
        (record { place = a'; owner = s'; status = done }) =
      sym f.same ∙ ap (λ x. parse on_entry x w s) at ∙ run in
    let status : f.fed.status ≡ done = ap (λ (p : Parsed S). p.status) same in
    let owner : f.fed.owner ≡ s' = ap (λ (p : Parsed S). p.owner) same in
    (
      f.fed.reader,
      f.ran
          ∙ ap₂ {C = Option (Fed S)}
              (λ o st. some (record { reader = f.fed.reader; owner = o; status = st })) owner
              status,
      f.reading status,
      ap (λ (p : Parsed S). p.place) same,
    )

prefix_trans : (t t' cs : List Bytes) → IsPrefix t t' → IsPrefix t' cs → IsPrefix t cs
prefix_trans t t' cs (x, front) (y, whole) =
    (x ++ y, sym (append_assoc t x y) ∙ ap (λ l. l ++ y) front ∙ whole)

-- Where two windows are read to their end, so is the first.
first_window :
    (x y : Bytes) (a a' : Place) (t t' : List Bytes)
    → IsShort a
    → parse collect a (x ++ y) t ≡ record { place = a'; owner = t'; status = done }
    → (b : Place) × (t1 : List Bytes) × (parse collect a x t
        ≡ record { place = b; owner = t1; status = done })
      × (parse collect b y t1 ≡ record { place = a'; owner = t'; status = done })
      × IsPrefix t1 t'
first_window x y a a' t t' short run =
    let p = parse collect a x t in
    let parts = sym (parse-append collect a x y t) ∙ run in
    elim (Result-cases p.status) [
      | inl (_, fine) ↦
          let rest = rw fine at parts in
          let kept =
            parse-Kept collect (λ status t. Unit {0}) (λ e t h. tt) (λ e t h k. tt) a x t short
              tt in
          let whole : Path (Parsed (List Bytes)) p
              (record { place = p.place; owner = p.owner; status = done }) =
            ap {B = Parsed (List Bytes)}
              (λ status. record { place = p.place; owner = p.owner; status = status }) fine in
          (p.place, p.owner, whole, rest, parse-IsPrefix y p.place a' p.owner t' (kept.1 fine) rest)
      | inr (e, bad) ↦
          let q : err e ≡ done = ap (λ (p : Parsed (List Bytes)). p.status) (rw bad at parts) in cc
    ]

module _ (decrypt : Bytes → Result Bytes) (es cs ps : List Bytes) (sorted : IsSorted es)
    (bound : length es ≤ max_elements) (plain : decrypt_batch decrypt cs ≡ ok ps)
    (limit : length cs ≤ max_elements) where
  abbrev pub At : PsiMatch → Place → List Bytes → Type 0
  At m a taken = Stands decrypt es cs ps sorted bound plain limit m a taken

  -- One window.
  piece_window :
      (m : PsiMatch) (w : Bytes) (a a' : Place) (t t' : List Bytes)
      → At m a t
      → parse collect a w t ≡ record { place = a'; owner = t'; status = done }
      → IsPrefix t' cs
      → (m' : PsiMatch) × (step decrypt (call_piece w) m ≡ some (none, m'))
        × At m' a' t'
        × (m'.reveal_intersection ≡ m.reveal_intersection)
  unfolding step end_piece
  piece_window m w a a' t t' st run prefix =
      let (o, same, (r, is, matching, small)) =
        fed_window decrypt es cs ps sorted bound plain limit m st.holds w a a' t t' st run prefix in
      let (reader, fed, reading, place) =
        fed_whole (add_response_element m.reveal_intersection m.setup.store decrypt)
          m.response_reader w a a' (some m.response) (some r) st.reading st.place (rw is at same) in
      elim (match_batch-BatchRuns decrypt m.reveal_intersection es m.setup.store st.holds sorted
        bound t' r matching) [
          | matches_all r' ran matching' empty ↦
              let answer : match_response_piece decrypt m w
                  ≡ some (done, record m { response_reader = reader; response = r' }) =
                window_piece decrypt m w reader r done st.fine st.phase_is fed
                ∙ rw (ran, end_piece) in
              (
                record m { response_reader = reader; response = r' },
                ap without_value answer,
                record {
                  fine = st.fine;
                  phase_is = st.phase_is;
                  reading = reading;
                  place = place;
                  holds = st.holds;
                  matching = matching';
                  empty = empty;
                },
                refl,
              )
          | refuses e ran bad ↦ absurd (
              never_refused decrypt es cs ps sorted bound plain limit t' matching.matched_ones
                r.batch e prefix matching.parts bad)
        ]

  At-IsShort : (m : PsiMatch) (a : Place) (t : List Bytes) → At m a t → IsShort a
  At-IsShort m a t st = subst IsShort st.place (view-IsShort m.response_reader st.reading)

  -- All windows, read as the bytes that they are cut from.
  pub response_windows :
      (ws : List Bytes) (m : PsiMatch) (a a' : Place) (t t' : List Bytes)
      → At m a t
      → parse collect a (flatten ws) t ≡ record { place = a'; owner = t'; status = done }
      → IsPrefix t' cs
      → (m' : PsiMatch) × (run_calls decrypt (map call_piece ws) m ≡ some (no_refusals ws, m'))
        × At m' a' t'
        × (m'.reveal_intersection ≡ m.reveal_intersection)
  unfolding run_calls flatten parse
  response_windows [] m a a' t t' st run prefix =
      (m, refl, subst (λ (p : Parsed (List Bytes)). At m p.place p.owner) run st, refl)
  response_windows (w ∷ ws) m a a' t t' st run prefix =
      let (b, t1, first, rest, early) =
        first_window w (flatten ws) a a' t t' (At-IsShort m a t st) run in
      let (m1, ran, st1, mode1) =
        piece_window m w a b t t1 st first (prefix_trans t1 t' cs early prefix) in
      let (m', more, st', mode') = response_windows ws m1 b a' t1 t' st1 rest prefix in
      (m', rw (ran, more, run_calls), st', mode' ∙ mode1)
