-- ===== src/Containers/Raw/Cycle/Inner.antt =====
-- The inner loop of the cycle sort of private_set_intersection/cpp/datastructure/raw.cpp: one cycle.
use open_mined_psi.Base.{
  ℕ, zero, suc, ◌==◌, ◌≤◌, ◌<◌, ◌≡◌, ◌≢◌, refl, sym, ap, subst, ◌∙◌, Bool, true, false, Bytes, List,
  [], some, length, get_or, set, if◌then◌else◌, arith, Bool-cases, inl, inr, length-set,
  get_or-set_self, get_or-set_ne,
}
use open_mined_psi.Containers.Raw.{move_cycle}
use open_mined_psi.Containers.Raw.Cycle.Marks.{
  IsPermutation, placed, placed-set_self, placed-set_ne, left, left-set,
}

module _ (xs : List Bytes) (p : List ℕ) (perm : IsPermutation p (length xs)) where
  abbrev at : ℕ → ℕ
  at k = get_or p k 0

  -- Index `k` holds what it is to hold, or still what it held.
  abbrev Holds : List Bytes → Bool → ℕ → Type 0
  Holds es b k = get_or es k [] ≡ get_or xs (if b then at k else k) []

  -- In the inner loop at index `j` the cycle of `i` is in place from after `i` to before `j`.
  pub record IsInner (i j : ℕ) (es : List Bytes) (v : List Bool) : Type 0 where
    pub es_size : length es ≡ length xs
    pub v_size : length v ≡ length xs
    pub holds : (k : ℕ) → k < length xs → Holds es (placed i v k) k
    pub start_open : placed i v i ≡ false
    pub tip_inside : j < length xs
    pub tip_open : j ≢ i → placed i v j ≡ false
    pub before : (k : ℕ) × (k < length xs) × (at k ≡ j) × (k ≢ i → placed i v k ≡ true)
    pub first : at i ≢ j → placed i v (at i) ≡ true
    pub onward : (k : ℕ) → k < length xs → placed i v k ≡ true → at k ≢ j → placed i v (at k) ≡ true
    pub back : (k : ℕ) → k < length xs → placed i v (at k) ≡ true → k ≢ i → placed i v k ≡ true

  module _ (i j : ℕ) (es : List Bytes) (v : List Bool) (h : IsInner i j es v) (apart : j ≢ i) where
    abbrev es' : List Bytes
    es' = set es j (get_or es (at j) [])

    abbrev v' : List Bool
    v' = set v j true

    room : j < length v
    room = omega (arith, h.tip_inside, h.v_size)

    room_es : j < length es
    room_es = omega (arith, h.tip_inside, h.es_size)

    self : placed i v' j ≡ true
    self = placed-set_self i j v room

    other : (k : ℕ) → j ≢ k → placed i v' k ≡ placed i v k
    other k d = placed-set_ne i j k v d

    -- An index in place stays so.
    keeps : (k : ℕ) → placed i v k ≡ true → placed i v' k ≡ true
    keeps k t = elim (Bool-cases (j == k)) [
      | inl same ↦ let e : j ≡ k = ground arith in rw (sym e) self
      | inr d ↦ other k (ground arith) ∙ t
    ]

    -- The successor of the tip is not in place, or it is where the cycle began.
    next_open : placed i v (at j) ≡ false
    next_open = elim (Bool-cases (placed i v (at j))) [
      | inl t ↦ absurd (cc (h.back j h.tip_inside t apart, h.tip_open apart))
      | inr f ↦ f
    ]

    not_self : at j ≢ j
    not_self e =
        let (k, inside, to_tip, done) = h.before in
        let same : k ≡ j = perm.once k j inside h.tip_inside (to_tip ∙ sym e) in
        absurd (cc (rw same at (done (λ q. apart (sym same ∙ q))), h.tip_open apart))

    move-IsInner : IsInner i (at j) es' v'
    move-IsInner = record {
      es_size = length-set es j _ ∙ h.es_size;
      v_size = length-set v j true ∙ h.v_size;
      holds = λ k q. elim (Bool-cases (j == k)) [
        | inl same ↦
            let e : j ≡ k = ground arith in
            rw (sym e, self, get_or-set_self es j (get_or es (at j) []) [] room_es)
              (rw next_open at (h.holds (at j) (perm.inside j h.tip_inside)))
        | inr d ↦
            let ne : j ≢ k = ground arith in
            rw (other k ne, get_or-set_ne es j k (get_or es (at j) []) [] ne) (h.holds k q)
      ];
      start_open = other i apart ∙ h.start_open;
      tip_inside = perm.inside j h.tip_inside;
      tip_open = λ d. other (at j) (λ e. not_self (sym e)) ∙ next_open;
      before = (j, h.tip_inside, refl, λ _. self);
      first = λ d. elim (Bool-cases (at i == j)) [
        | inl same ↦ let e : at i ≡ j = ground arith in rw e self
        | inr far ↦ keeps (at i) (h.first (ground arith))
      ];
      onward = λ k q t d. elim (Bool-cases (j == k)) [
        | inl same ↦ let e : j ≡ k = ground arith in absurd (d (ap at (sym e)))
        | inr far ↦ elim (Bool-cases (at k == j)) [
          | inl to_tip ↦ let e : at k ≡ j = ground arith in rw e self
          | inr past ↦ keeps (at k) (h.onward k q (sym (other k (ground arith)) ∙ t) (ground arith))
        ]
      ];
      back = λ k q t d. elim (Bool-cases (at k == j)) [
        | inl to_tip ↦
            let e : at k ≡ j = ground arith in
            let (b, inside, to, done) = h.before in
            let same : b ≡ k = perm.once b k inside q (to ∙ sym e) in
            keeps k (rw same at (done (λ w. d (sym same ∙ w))))
        | inr past ↦
            keeps k (h.back k q (sym (other (at k) (λ e. absurd (ground (arith, e)))) ∙ t) d)
      ];
    }

    move-left : left v ≡ suc (left v')
    move-left = left-set v j room (ground (arith, h.tip_open apart))

  -- The inner loop ends at its first index.
  pub move_cycle-IsInner :
      (i fuel j : ℕ) (es : List Bytes) (v : List Bool)
      → IsInner i j es v
      → left v ≤ fuel
      → (es' : List Bytes) × (v' : List Bool) × (move_cycle p fuel i j es v ≡ some (es', v'))
        × IsInner i i es' v'
  unfolding move_cycle
  move_cycle-IsInner i zero j es v h enough = elim (Bool-cases (j == i)) [
    | inl back ↦
        let e : j ≡ i = ground arith in
        (es, v, rw (back, move_cycle), subst (λ j. IsInner i j es v) e h)
    | inr on ↦ absurd (omega (arith, move-left i j es v h (ground arith)))
  ]
  move_cycle-IsInner i (suc fuel) j es v h enough = elim (Bool-cases (j == i)) [
    | inl back ↦
        let e : j ≡ i = ground arith in
        (es, v, rw (back, move_cycle), subst (λ j. IsInner i j es v) e h)
    | inr on ↦
        let (es', v', ran, h') =
          move_cycle-IsInner i fuel (at j) (set es j (get_or es (at j) [])) (set v j true)
            (move-IsInner i j es v h (ground arith))
            (omega (arith, move-left i j es v h (ground arith))) in
        (es', v', rw (on, move_cycle) ran, h')
  ]
