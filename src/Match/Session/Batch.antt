-- ===== src/Match/Session/Batch.antt =====
-- `MatchBatch` and `AddResponseElement` of private_set_intersection/cpp/psi_match.cpp: what the
-- response's fields say of the elements taken so far.
use open_mined_psi.Base.{
  ◌+◌, ◌≤◌, ◌<◌, ◌≡◌, refl, sym, ◌∙◌, ap, Bool, Bytes, List, [], ◌∷◌, ◌++◌, Option, some, length,
  leb, push_back, arith, Bool-cases, inl, inr, ◌⊎◌, append_assoc, append-nil, length-append,
}
use open_mined_psi.Status.{
  Error, invalid_argument, too_many_response_elements, Result, ok, err, Status, done, Result-cases,
}
use open_mined_psi.Match.Slots.{SetupStore, max_elements}
use open_mined_psi.Match.Slots.Holds.{Holds}
use open_mined_psi.Match.Slots.Add.{IsSorted}
use open_mined_psi.Match.Session.{
  Response, decrypt_batch, batch_elements, match_from, match_batch, add_response_element,
}
use open_mined_psi.Match.Session.Matching.{Matched, match_from-Matched, fresh, fresh-Matched}

pub decrypt_batch-append :
    (decrypt : Bytes → Result Bytes) (xs ys ps qs : List Bytes)
    → decrypt_batch decrypt xs ≡ ok ps
    → decrypt_batch decrypt ys ≡ ok qs
    → decrypt_batch decrypt (xs ++ ys) ≡ ok (ps ++ qs)
unfolding decrypt_batch
decrypt_batch-append decrypt [] ys ps qs h k = ground arith
decrypt_batch-append decrypt (x ∷ xs) ys ps qs h k = elim (Result-cases (decrypt x)) [
  | inl (p, fine) ↦ elim (Result-cases (decrypt_batch decrypt xs)) [
    | inl (rest, more) ↦
        let e : ps ≡ p ∷ rest = ground arith in
        let ih = decrypt_batch-append decrypt xs ys rest qs more k in rw (fine, ih, e)
    | inr (x, bad) ↦ ground arith
  ]
  | inr (x, bad) ↦ ground arith
]

pub length-decrypt_batch :
    (decrypt : Bytes → Result Bytes) (xs ps : List Bytes)
    → decrypt_batch decrypt xs ≡ ok ps
    → length ps ≡ length xs
unfolding decrypt_batch
length-decrypt_batch decrypt [] ps h = ground arith
length-decrypt_batch decrypt (x ∷ xs) ps h = elim (Result-cases (decrypt x)) [
  | inl (p, fine) ↦ elim (Result-cases (decrypt_batch decrypt xs)) [
    | inl (rest, more) ↦ ground (arith, length-decrypt_batch decrypt xs rest more)
    | inr (x, bad) ↦ ground arith
  ]
  | inr (x, bad) ↦ ground arith
]

List-cases {ℓ} :
    {A : Type ℓ} (xs : List A) → (xs ≡ []) ⊎ ((x : A) × (rest : List A) × (xs ≡ x ∷ rest))
List-cases [] = inl refl
List-cases (x ∷ xs) = inr (x, xs, refl)

module _ (reveal : Bool) (s : SetupStore) (decrypt : Bytes → Result Bytes) (r : Response) where
  run_none : r.batch ≡ [] → match_batch reveal s decrypt r ≡ some (done, r)
  unfolding match_batch
  run_none empty = simp (empty, match_batch)

  run_bad :
      (x : Bytes) (xs : List Bytes) (e : Error)
      → r.batch ≡ x ∷ xs
      → decrypt_batch decrypt (x ∷ xs) ≡ err e
      → match_batch reveal s decrypt r ≡ some (err e, r)
  unfolding match_batch
  run_bad x xs e some_batch bad = simp (some_batch, bad, match_batch)

  run_some :
      (x : Bytes) (xs qs : List Bytes)
      → r.batch ≡ x ∷ xs
      → decrypt_batch decrypt (x ∷ xs) ≡ ok qs
      → (r' : Response) → match_from reveal s 0 qs r ≡ some r'
      → match_batch reveal s decrypt r
        ≡ some (done, record r' { decrypted_count = r'.decrypted_count + length qs; batch = [] })
  unfolding match_batch
  run_some x xs qs some_batch fine r' run = simp (some_batch, fine, run, match_batch)

module _ (decrypt : Bytes → Result Bytes) (reveal : Bool) (es : List Bytes) where
  -- Of the elements `taken`, the last ones wait in the batch; the others are decrypted and matched.
  pub record IsMatching (taken : List Bytes) (r : Response) : Type 0 where
    pub matched_ones : List Bytes
    pub plains : List Bytes
    pub parts : taken ≡ matched_ones ++ r.batch
    pub decrypted : decrypt_batch decrypt matched_ones ≡ ok plains
    pub count_is : r.decrypted_count ≡ length plains
    pub matched : Matched reveal es plains r
    pub room : length plains + length r.batch ≤ max_elements

  pub fresh-IsMatching : IsMatching [] (fresh (length es))
  unfolding decrypt_batch
  fresh-IsMatching = record {
    matched_ones = [];
    plains = [];
    parts = refl;
    decrypted = refl;
    count_is = refl;
    matched = fresh-Matched reveal es;
    room = omega arith;
  }

  -- The batch is decrypted and matched whole, or a decryption refuses it.
  pub data BatchRuns (s : SetupStore) (taken : List Bytes) (r : Response) : Type 0 where
    matches_all :
        (r' : Response)
        → match_batch reveal s decrypt r ≡ some (done, r')
        → IsMatching taken r'
        → r'.batch ≡ []
        → BatchRuns s taken r
    refuses :
        (e : Error)
        → match_batch reveal s decrypt r ≡ some (err e, r)
        → decrypt_batch decrypt r.batch ≡ err e
        → BatchRuns s taken r

  module _ (s : SetupStore) (h : Holds s es) (sorted : IsSorted es)
      (bound : length es ≤ max_elements) where
    run_batch :
        (taken : List Bytes) (r : Response) (x : Bytes) (xs qs : List Bytes)
        → IsMatching taken r
        → r.batch ≡ x ∷ xs
        → decrypt_batch decrypt (x ∷ xs) ≡ ok qs
        → BatchRuns s taken r
    unfolding match_batch
    run_batch taken r x xs qs m some_batch fine =
        let size = length-decrypt_batch decrypt (x ∷ xs) qs fine in
        let (r', run, count, matched') =
          match_from-Matched reveal s es qs m.plains 0 r h sorted (omega arith)
            (omega (arith, m.count_is)) (omega (arith, m.room, ap length some_batch)) m.matched in
        matches_all (record r' { decrypted_count = r'.decrypted_count + length qs; batch = [] })
          (run_some reveal s decrypt r x xs qs some_batch fine r' run)
          (record {
            matched_ones = taken;
            plains = m.plains ++ qs;
            parts = sym (append-nil taken);
            decrypted =
                ap (decrypt_batch decrypt) (m.parts ∙ ap (λ b. m.matched_ones ++ b) some_batch)
                ∙ decrypt_batch-append decrypt m.matched_ones (x ∷ xs) m.plains qs m.decrypted fine;
            count_is = omega (arith, m.count_is, length-append m.plains qs);
            matched = record {
              tally = matched'.tally;
              marked = matched'.marked;
              response_is = matched'.response_is;
              setup_is = matched'.setup_is;
            };
            room = omega (arith, m.room, ap length some_batch, length-append m.plains qs);
          })
          refl

    pub match_batch-BatchRuns :
        (taken : List Bytes) (r : Response) → IsMatching taken r → BatchRuns s taken r
    unfolding match_batch
    match_batch-BatchRuns taken r m = elim (List-cases r.batch) [
      | inl empty ↦ matches_all r (run_none reveal s decrypt r empty) m empty
      | inr (x, xs, some_batch) ↦ elim (Result-cases (decrypt_batch decrypt (x ∷ xs))) [
        | inl (qs, fine) ↦ run_batch taken r x xs qs m some_batch fine
        | inr (e, bad) ↦
            refuses e (run_bad reveal s decrypt r x xs e some_batch bad) (rw some_batch bad)
      ]
    ]

    taken_more-IsMatching :
        (taken : List Bytes) (e : Bytes) (r : Response)
        → IsMatching taken r
        → r.decrypted_count + length r.batch < max_elements
        → IsMatching (push_back taken e) (record r { batch = push_back r.batch e })
    taken_more-IsMatching taken e r m fits = record {
      matched_ones = m.matched_ones;
      plains = m.plains;
      parts = ap (λ t. push_back t e) m.parts ∙ append_assoc m.matched_ones r.batch (e ∷ []);
      decrypted = m.decrypted;
      count_is = m.count_is;
      matched = record {
        tally = m.matched.tally;
        marked = m.matched.marked;
        response_is = m.matched.response_is;
        setup_is = m.matched.setup_is;
      };
      room = omega (arith, m.count_is, length-append r.batch (e ∷ []));
    }

    -- What the callback leaves after `taken` and one more element: the fields in order with a batch
    -- that is not full, or a refusal.
    abbrev pub Taken : List Bytes → Bytes → Response → Status × Option Response → Type 0
    Taken taken e r o =
        ((r' : Response) × (o ≡ (done, some r'))
          × IsMatching (push_back taken e) r'
          × (length r'.batch < batch_elements))
        ⊎ ((x : Error) × (r' : Response) × (o ≡ (err x, some r'))
            × ((max_elements ≤ length taken)
                ⊎ ((xs ys : List Bytes) × (push_back taken e ≡ xs ++ ys)
                    × (decrypt_batch decrypt ys ≡ err x))))

    pub add_response_element-Taken :
        (taken : List Bytes) (e : Bytes) (r : Response)
        → IsMatching taken r
        → length r.batch < batch_elements
        → Taken taken e r (add_response_element reveal s decrypt e (some r))
    unfolding add_response_element
    add_response_element-Taken taken e r m small =
        elim (Bool-cases (leb max_elements (r.decrypted_count + length r.batch))) [
          | inl full ↦
              let decrypted = length-decrypt_batch decrypt m.matched_ones m.plains m.decrypted in
              let parts = ap length m.parts ∙ length-append m.matched_ones r.batch in
              inr (
                invalid_argument too_many_response_elements,
                r,
                rw full,
                inl (ground (arith, m.count_is)),
              )
          | inr fits ↦
              let r' = record r { batch = push_back r.batch e } in
              let m' = taken_more-IsMatching taken e r m (ground arith) in
              elim (Bool-cases (leb batch_elements (length (push_back r.batch e)))) [
                | inl whole ↦ elim (match_batch-BatchRuns (push_back taken e) r' m') [
                  | matches_all r'' run m'' empty ↦
                      inl (r'', rw (fits, whole, run), m'', omega (arith, ap length empty))
                  | refuses x run bad ↦
                      inr (
                        x,
                        r',
                        rw (fits, whole, run),
                        inr (m'.matched_ones, r'.batch, m'.parts, bad),
                      )
                ]
                | inr part ↦ inl (r', rw (fits, part), m', ground arith)
              ]
        ]
