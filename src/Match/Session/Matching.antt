-- ===== src/Match/Session/Matching.antt =====
-- The matching loop of `MatchBatch` of private_set_intersection/cpp/psi_match.cpp.
use open_mined_psi.Base.{
  ℕ, suc, ◌+◌, ◌/◌, ◌==◌, ◌^◌, ◌%◌, ◌≤◌, ◌<◌, ◌≡◌, ◌≢◌, refl, sym, ap, ◌∙◌, Bool, true, false,
  Bytes, List, [], ◌∷◌, ◌++◌, map, none, some, length, get_or, push_back, replicate, arith,
  if◌then◌else◌, Bool-cases, Option-cases, inl, inr, append_assoc, append-nil, length-append,
}
use mathlib.Core.List.{map-append}
use native.Mathlib.Nat.{zero-add}
use open_mined_psi.Base.Order.{str_eqb}
use open_mined_psi.Match.Slots.{SetupStore}
use open_mined_psi.Match.Slots.Holds.{Holds}
use open_mined_psi.Match.Slots.Add.{IsSorted}
use open_mined_psi.Match.Session.{Response, record_match, match_from, mark}
use open_mined_psi.Match.Session.Tally.{
  IsTally, bit_at, bit_at-mark_self, bit_at-mark_ne, mark-IsTally, zeros-IsTally, bit_at-zeros,
}
use open_mined_psi.Match.Session.Position.{
  position, position-Places, find_in_setup-position, str_eqb_iff, IsSorted-inj,
}

-- Whether `e` is among `ps`, as 1 or 0.
unfoldable pub occurs : List Bytes → Bytes → ℕ
occurs [] e = 0
occurs (p ∷ ps) e = if str_eqb e p then 1 else occurs ps e

-- The pairs of a number in `ps`, counted from `k`, and the index in `es` of an equal element.
unfoldable pub matches : List Bytes → ℕ → List Bytes → List (ℕ × ℕ)
matches es k [] = []
matches es k (p ∷ ps) = elim (position es p) [
  | none ↦ matches es (k + 1) ps
  | some i ↦ (k, i) ∷ matches es (k + 1) ps
]

not_true : (b : Bool) → ¬ (b ≡ true) → b ≡ false
not_true true h = absurd (h refl)
not_true false h = refl

occurs-append :
    (ps : List Bytes) (p e : Bytes)
    → occurs (ps ++ p ∷ []) e ≡ (if str_eqb e p then 1 else occurs ps e)
unfolding occurs
occurs-append [] p e = refl
occurs-append (q ∷ ps) p e = ground (arith, occurs-append ps p e)

matches-append :
    (es : List Bytes) (k : ℕ) (ps : List Bytes) (p : Bytes)
    → matches es k (ps ++ p ∷ []) ≡ matches es k ps ++ matches es (k + length ps) (p ∷ [])
unfolding matches
matches-append es k [] p = let e : k + 0 ≡ k = omega arith in rw e
matches-append es k (q ∷ ps) p =
    let e : k + suc (length ps) ≡ k + 1 + length ps = omega arith in
    rw e (elim (Option-cases (position es q)) [
      | inl miss ↦ rw (miss, matches) (matches-append es (k + 1) ps p)
      | inr (i, hit) ↦ rw (hit, matches) (ap (◌∷◌ (k, i)) (matches-append es (k + 1) ps p))
    ])

matches_miss :
    (es ps : List Bytes) (p : Bytes)
    → position es p ≡ none
    → matches es 0 (ps ++ p ∷ []) ≡ matches es 0 ps
matches_miss es ps p miss = matches-append es 0 ps p ∙ (rw miss_one (append-nil (matches es 0 ps)))
  where
    miss_one : matches es (0 + length ps) (p ∷ []) ≡ []
    miss_one = unfold matches in rw (miss, matches)

matches_hit :
    (es ps : List Bytes) (p : Bytes) (i : ℕ)
    → position es p ≡ some i
    → matches es 0 (ps ++ p ∷ []) ≡ matches es 0 ps ++ (length ps, i) ∷ []
matches_hit es ps p i hit = matches-append es 0 ps p ∙ ap (λ t. matches es 0 ps ++ t) hit_one
  where
    hit_one : matches es (0 + length ps) (p ∷ []) ≡ (length ps, i) ∷ []
    hit_one = unfold matches in rw (hit, matches) (ap (λ n. (n, i) ∷ []) (zero-add (length ps)))

-- The response's fields say what the decrypted elements `ps` match in `es`.
pub record Matched (reveal : Bool) (es ps : List Bytes) (r : Response) : Type 0 where
  pub tally : IsTally (length es) r.matched_setup
  pub marked : (i : ℕ) → i < length es → bit_at r.matched_setup i ≡ occurs ps (get_or es i [])
  pub response_is :
      r.response_indices ≡ (if reveal then map (λ (a : ℕ × ℕ). a.0) (matches es 0 ps) else [])
  pub setup_is :
      r.setup_indices ≡ (if reveal then map (λ (a : ℕ × ℕ). a.1) (matches es 0 ps) else [])

-- The response's fields before any element.
abbrev pub fresh : ℕ → Response
fresh n = record {
  batch = [];
  decrypted_count = 0;
  matched_setup = replicate ((n + 63) / 64) 0;
  response_indices = [];
  setup_indices = [];
}

pub fresh-Matched : (reveal : Bool) (es : List Bytes) → Matched reveal es [] (fresh (length es))
unfolding matches occurs
fresh-Matched true es = record {
  tally = zeros-IsTally (length es);
  marked = λ i q. bit_at-zeros ((length es + 63) / 64) i;
  response_is = refl;
  setup_is = refl;
}
fresh-Matched false es = record {
  tally = zeros-IsTally (length es);
  marked = λ i q. bit_at-zeros ((length es + 63) / 64) i;
  response_is = refl;
  setup_is = refl;
}

module _ (es : List Bytes) (sorted : IsSorted es) (ps : List Bytes) (p : Bytes) where
  occurs_miss :
      position es p ≡ none
      → (i : ℕ) → i < length es
      → occurs (ps ++ p ∷ []) (get_or es i []) ≡ occurs ps (get_or es i [])
  occurs_miss miss i q =
      let apart = (rw miss at (position-Places es p)) i q in
      let differs : str_eqb (get_or es i []) p ≡ false =
        not_true (str_eqb (get_or es i []) p) (λ t. apart ((str_eqb_iff (get_or es i []) p).0 t)) in
      occurs-append ps p (get_or es i []) ∙ rw differs

  occurs_hit_self : (i : ℕ) → position es p ≡ some i → occurs (ps ++ p ∷ []) (get_or es i []) ≡ 1
  occurs_hit_self i hit =
      let (q, same) = rw hit at (position-Places es p) in
      occurs-append ps p (get_or es i []) ∙ rw ((str_eqb_iff (get_or es i []) p).1 same)

  occurs_hit_ne :
      (i j : ℕ)
      → position es p ≡ some i
      → j < length es
      → j ≢ i
      → occurs (ps ++ p ∷ []) (get_or es j []) ≡ occurs ps (get_or es j [])
  occurs_hit_ne i j hit q apart =
      let (b, same) = rw hit at (position-Places es p) in
      let differs : str_eqb (get_or es j []) p ≡ false = not_true (str_eqb (get_or es j []) p) (λ t.
        apart (IsSorted-inj es j i sorted q b ((str_eqb_iff (get_or es j []) p).0 t ∙ sym same))) in
      occurs-append ps p (get_or es j []) ∙ rw differs

-- What `record_match` writes.
record_match_fields :
    (reveal : Bool) (s : SetupStore) (r : Response) (k i : ℕ)
    → ((record_match reveal s r k i).matched_setup ≡ mark r.matched_setup i)
      × ((record_match reveal s r k i).response_indices ≡ (
          if reveal
          then push_back r.response_indices ((r.decrypted_count + k) % 2 ^ 32)
          else r.response_indices))
      × ((record_match reveal s r k i).setup_indices
          ≡ (if reveal then push_back r.setup_indices (i % 2 ^ 32) else r.setup_indices))
      × ((record_match reveal s r k i).decrypted_count ≡ r.decrypted_count)
unfolding record_match
record_match_fields true s r k i = (refl, refl, refl, refl)
record_match_fields false s r k i = (refl, refl, refl, refl)

-- One more pair, where pairs are recorded.
recorded :
    (reveal : Bool) (f : ℕ × ℕ → ℕ) (old : List ℕ) (pairs : List (ℕ × ℕ)) (a : ℕ × ℕ) (n : ℕ)
    → old ≡ (if reveal then map f pairs else [])
    → n ≡ f a
    → (if reveal then push_back old n else old) ≡ (if reveal then map f (pairs ++ a ∷ []) else [])
recorded true f old pairs a n e q = rw (e, q) (sym (map-append f pairs (a ∷ [])))
recorded false f old pairs a n e q = e

module _ (reveal : Bool) (s : SetupStore) (es : List Bytes) (sorted : IsSorted es) where
  -- An element that is not in the setup.
  missed :
      (ps : List Bytes) (p : Bytes) (r : Response)
      → position es p ≡ none
      → Matched reveal es ps r
      → Matched reveal es (ps ++ p ∷ []) r
  missed ps p r miss m = record {
    tally = m.tally;
    marked = λ i q. m.marked i q ∙ sym (occurs_miss es sorted ps p miss i q);
    response_is = rw (matches_miss es ps p miss) m.response_is;
    setup_is = rw (matches_miss es ps p miss) m.setup_is;
  }

  hit :
      (ps : List Bytes) (p : Bytes) (r : Response) (k i : ℕ)
      → position es p ≡ some i
      → r.decrypted_count + k ≡ length ps
      → length ps < 2 ^ 32
      → length es < 2 ^ 32
      → Matched reveal es ps r
      → Matched reveal es (ps ++ p ∷ []) (record_match reveal s r k i)
  hit ps p r k i found number fits small m =
      let (words, responses, setups, _) = record_match_fields reveal s r k i in
      let (inside, same) = rw found at (position-Places es p) in
      let word : i / 64 < length r.matched_setup = omega (arith, m.tally.room) in
      record {
        tally = rw words (mark-IsTally (length es) r.matched_setup i inside m.tally);
        marked = λ j q. rw words (elim (Bool-cases (j == i)) [
          | inl here ↦
              let at_i : j ≡ i = ground arith in
              rw at_i (
                bit_at-mark_self r.matched_setup i word
                ∙ sym (occurs_hit_self es sorted ps p i found))
          | inr other ↦
              let apart : j ≢ i = ground arith in
              bit_at-mark_ne r.matched_setup i j word apart
              ∙ m.marked j q
              ∙ sym (occurs_hit_ne es sorted ps p i j found q apart)
        ]);
        response_is =
            responses
            ∙ rw (matches_hit es ps p i found) (
                recorded reveal (λ a. a.0) r.response_indices (matches es 0 ps) (length ps, i)
                  ((r.decrypted_count + k) % 2 ^ 32) m.response_is (omega arith));
        setup_is =
            setups
            ∙ rw (matches_hit es ps p i found) (
                recorded reveal (λ a. a.1) r.setup_indices (matches es 0 ps) (length ps, i)
                  (i % 2 ^ 32) m.setup_is (omega arith));
      }

-- The loop over a batch: it ends, and adds the batch to what has been matched.
pub match_from-Matched :
    (reveal : Bool) (s : SetupStore) (es : List Bytes) (qs ps : List Bytes) (k : ℕ) (r : Response)
    → Holds s es
    → IsSorted es
    → length es < 2 ^ 32
    → r.decrypted_count + k ≡ length ps
    → length ps + length qs ≤ 2 ^ 32
    → Matched reveal es ps r
    → (r' : Response) × (match_from reveal s k qs r ≡ some r')
      × (r'.decrypted_count ≡ r.decrypted_count)
      × Matched reveal es (ps ++ qs) r'
unfolding match_from
match_from-Matched reveal s es [] ps k r h sorted small number fits m =
    (r, refl, refl, rw (append-nil ps) m)
match_from-Matched reveal s es (q ∷ qs) ps k r h sorted small number fits m =
    let asked = find_in_setup-position s es q h sorted (omega (arith, h.count_is)) in
    let shift = append_assoc ps (q ∷ []) qs in
    let size = length-append ps (q ∷ []) in
    elim (Option-cases (position es q)) [
      | inl miss ↦
          let (r', run, count, m') =
            match_from-Matched reveal s es qs (ps ++ q ∷ []) (k + 1) r h sorted small (omega arith)
              (omega arith) (missed reveal s es sorted ps q r miss m) in
          (r', rw (asked ∙ ap some miss, match_from) run, count, rw shift at m')
      | inr (i, found) ↦
          let count_same = (record_match_fields reveal s r k i).3 in
          let (r', run, count, m') =
            match_from-Matched reveal s es qs (ps ++ q ∷ []) (k + 1) (record_match reveal s r k i) h
              sorted small (omega arith) (omega arith)
              (hit reveal s es sorted ps q r k i found number (omega arith) small m) in
          (r', rw (asked ∙ ap some found, match_from) run, count ∙ count_same, rw shift at m')
    ]
