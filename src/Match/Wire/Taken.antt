-- ===== src/Match/Wire/Taken.antt =====
-- The calls that hand an encoded response to `PsiMatch` of private_set_intersection/cpp/psi_match.cpp,
-- in windows cut anywhere.
use open_mined_psi.Base.{
  ◌≤◌, ◌<◌, ◌≡◌, refl, sym, ap, ◌∙◌, subst, Bytes, List, [], ◌∷◌, ◌++◌, push_back, Option, some,
  length, inl, inr, arith, length-append,
}
use open_mined_psi.Status.{Error, Result, ok, err, done, Result-cases}
use open_mined_psi.Match.Reader.{max_element_bytes}
use open_mined_psi.Match.Reader.Parse.{Place, parse, view}
use open_mined_psi.Match.Reader.Keeps.{IsShort, view-IsShort}
use open_mined_psi.Match.Reader.Windows.{IsReading}
use open_mined_psi.Match.Slots.{max_elements}
use open_mined_psi.Match.Slots.Holds.{Holds}
use open_mined_psi.Match.Slots.Add.{IsSorted}
use open_mined_psi.Match.Session.{
  PsiMatch, Response, k_matching, decrypt_batch, batch_elements, add_response_element,
}
use open_mined_psi.Match.Session.Batch.{IsMatching, add_response_element-Taken}
use open_mined_psi.Match.Wire.{IsPrefix}
use open_mined_psi.Match.Wire.Entries.{collect}
use open_mined_psi.Match.Wire.Lockstep.{parse-lockstep}

-- What decrypts whole decrypts in part.
decrypt_front :
    (decrypt : Bytes → Result Bytes) (xs ys ps : List Bytes)
    → decrypt_batch decrypt (xs ++ ys) ≡ ok ps
    → (qs : List Bytes) × (decrypt_batch decrypt xs ≡ ok qs)
unfolding decrypt_batch
decrypt_front decrypt [] ys ps h = ([], refl)
decrypt_front decrypt (x ∷ xs) ys ps h = elim (Result-cases (decrypt x)) [
  | inl (p, fine) ↦ elim (Result-cases (decrypt_batch decrypt (xs ++ ys))) [
    | inl (rest, more) ↦
        let (qs, front) = decrypt_front decrypt xs ys rest more in
        (p ∷ qs, rw (fine, front, decrypt_batch))
    | inr (e, bad) ↦ absurd (ground arith)
  ]
  | inr (e, bad) ↦ absurd (ground arith)
]

decrypt_back :
    (decrypt : Bytes → Result Bytes) (xs ys ps : List Bytes)
    → decrypt_batch decrypt (xs ++ ys) ≡ ok ps
    → (qs : List Bytes) × (decrypt_batch decrypt ys ≡ ok qs)
unfolding decrypt_batch
decrypt_back decrypt [] ys ps h = (ps, h)
decrypt_back decrypt (x ∷ xs) ys ps h = elim (Result-cases (decrypt x)) [
  | inl (p, fine) ↦ elim (Result-cases (decrypt_batch decrypt (xs ++ ys))) [
    | inl (rest, more) ↦ decrypt_back decrypt xs ys rest more
    | inr (e, bad) ↦ absurd (ground arith)
  ]
  | inr (e, bad) ↦ absurd (ground arith)
]

module _ (decrypt : Bytes → Result Bytes) (es cs ps : List Bytes) (sorted : IsSorted es)
    (bound : length es ≤ max_elements) (plain : decrypt_batch decrypt cs ≡ ok ps)
    (limit : length cs ≤ max_elements) where
  pub never_refused :
      (t xs ys : List Bytes) (x : Error)
      → IsPrefix t cs
      → t ≡ xs ++ ys
      → decrypt_batch decrypt ys ≡ err x
      → ⊥
  never_refused t xs ys x (rest, whole) parts bad =
      let all : decrypt_batch decrypt ((xs ++ ys) ++ rest) ≡ ok ps =
        ap (λ l. decrypt_batch decrypt (l ++ rest)) (sym parts)
        ∙ ap (decrypt_batch decrypt) whole
        ∙ plain in
      let (qs, front) = decrypt_front decrypt (xs ++ ys) rest ps all in
      let (last, fine) = decrypt_back decrypt xs ys qs front in
      let q : err x ≡ ok last = sym bad ∙ fine in cc

  -- The matching of the elements of whole entries.
  pub record Stands (m : PsiMatch) (a : Place) (taken : List Bytes) : Type 0 where
    pub fine : m.failure ≡ done
    pub phase_is : m.phase ≡ k_matching
    pub reading : IsReading m.response_reader
    pub place : view m.response_reader ≡ a
    pub holds : Holds m.setup.store es
    pub matching : IsMatching decrypt m.reveal_intersection es taken m.response
    pub empty : m.response.batch ≡ []

  module _ (m : PsiMatch) (holds : Holds m.setup.store es) where
    abbrev Taking : List Bytes → Option Response → Type 0
    Taking t o =
        (r : Response) × (o ≡ some r)
        × IsMatching decrypt m.reveal_intersection es t r
        × (length r.batch < batch_elements)

    takes_next :
        (t : List Bytes) (e : Bytes) (o : Option Response)
        → length e ≤ max_element_bytes
        → IsPrefix (push_back t e) cs
        → Taking t o
        → (o' : Option Response) × (add_response_element m.reveal_intersection m.setup.store decrypt
              e o
            ≡ (done, o'))
          × Taking (push_back t e) o'
    takes_next t e o short prefix (r, is, matching, small) =
        rw is
          (elim (add_response_element-Taken decrypt m.reveal_intersection es m.setup.store holds
            sorted bound t e r matching small) [
              | inl (r', run, matching', small') ↦ (some r', run, (r', refl, matching', small'))
              | inr (x, r', run, inl full) ↦
                  let (rest, whole) = prefix in
                  absurd (
                    omega (
                      arith,
                      ap length whole,
                      length-append (push_back t e) rest,
                      length-append t (e ∷ []),
                    ))
              | inr (x, r', run, inr (xs, ys, parts, bad)) ↦
                  absurd (never_refused (push_back t e) xs ys x prefix parts bad)
            ])

    -- A window of the response, fed.
    pub fed_window :
        (reader_bytes : Bytes) (a a' : Place) (t t' : List Bytes)
        → Stands m a t
        → parse collect a reader_bytes t ≡ record { place = a'; owner = t'; status = done }
        → IsPrefix t' cs
        → (o : Option Response) × (parse
              (add_response_element m.reveal_intersection m.setup.store decrypt)
              a
              reader_bytes
              (some m.response)
            ≡ record { place = a'; owner = o; status = done })
          × Taking t' o
    fed_window bytes a a' t t' st run prefix =
        parse-lockstep (add_response_element m.reveal_intersection m.setup.store decrypt) cs Taking
          takes_next bytes a a' t t' (some m.response)
          (subst IsShort st.place (view-IsShort m.response_reader st.reading)) run prefix
          (m.response, refl, st.matching, omega (arith, ap length st.empty))
