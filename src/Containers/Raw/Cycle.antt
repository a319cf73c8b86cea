-- ===== src/Containers/Raw/Cycle.antt =====
-- The in-place cycle sort of `Raw::Create` and `Raw::GetAssociationTable`,
-- private_set_intersection/cpp/datastructure/raw.cpp: what it leaves behind.
mod Marks
mod Inner
pub use Marks.{IsPermutation}
use open_mined_psi.Base.{
  ℕ, zero, suc, ◌+◌, ◌==◌, ◌≤◌, ◌<◌, ◌≡◌, ◌≢◌, refl, sym, ap, subst, ◌∙◌, ltb, Bool, true, false,
  ◌||◌, Bytes, List, [], ◌∷◌, some, length, get_or, set, replicate, if◌then◌else◌, arith,
  Bool-cases, inl, inr, length-set, get_or-set_self, get_or-set_ne, get_or-replicate,
  length-replicate,
}
use open_mined_psi.Containers.Raw.{cycle_sort, create}
use Marks.{placed, left-le-length}
use Inner.{IsInner, move_cycle-IsInner}

module _ (xs : List Bytes) (p : List ℕ) (perm : IsPermutation p (length xs)) where
  abbrev at : ℕ → ℕ
  at k = get_or p k 0

  -- Index `k` holds what it is to hold, or still what it held.
  abbrev Holds : List Bytes → Bool → ℕ → Type 0
  Holds es b k = get_or es k [] ≡ get_or xs (if b then at k else k) []

  -- Between two rounds of the outer loop the indexes in place are whole cycles.
  record IsOuter (i : ℕ) (es : List Bytes) (v : List Bool) : Type 0 where
    es_size : length es ≡ length xs
    v_size : length v ≡ length xs
    holds : (k : ℕ) → k < length xs → Holds es (placed i v k) k
    onward : (k : ℕ) → k < length xs → placed i v k ≡ placed i v (at k)

  start-IsInner :
      (i : ℕ) (es : List Bytes) (v : List Bool)
      → IsOuter i es v
      → i < length xs
      → placed i v i ≡ false
      → IsInner xs p perm i (at i) es v
  start-IsInner i es v h q fresh = record {
    es_size = h.es_size;
    v_size = h.v_size;
    holds = h.holds;
    start_open = fresh;
    tip_inside = perm.inside i q;
    tip_open = λ _. sym (h.onward i q) ∙ fresh;
    before = (i, q, refl, λ d. absurd (d refl));
    first = λ d. absurd (d refl);
    onward = λ k w t _. sym (h.onward k w) ∙ t;
    back = λ k w t _. h.onward k w ∙ t;
  }

  placed-suc_ne : (i k : ℕ) (v : List Bool) → k ≢ i → placed (i + 1) v k ≡ placed i v k
  placed-suc_ne i k v d = let e : ltb k (i + 1) ≡ ltb k i = ground arith in rw e refl

  placed-suc_self : (i : ℕ) (v : List Bool) → placed (i + 1) v i ≡ true
  placed-suc_self i v = let e : ltb i (i + 1) ≡ true = ground arith in rw e refl

  -- Writing the kept value closes the cycle.
  close-IsOuter :
      (i : ℕ) (es : List Bytes) (v : List Bool) (x : Bytes)
      → IsInner xs p perm i i es v
      → x ≡ get_or xs (at i) []
      → IsOuter (i + 1) (set es i x) v
  close-IsOuter i es v x h value = record {
    es_size = length-set es i x ∙ h.es_size;
    v_size = h.v_size;
    holds = λ k q. elim (Bool-cases (k == i)) [
      | inl same ↦
          let e : k ≡ i = ground arith in
          rw
            (
              e,
              placed-suc_self i v,
              get_or-set_self es i x [] (omega (arith, h.tip_inside, h.es_size)),
            )
            value
      | inr far ↦
          let d : k ≢ i = ground arith in
          rw (placed-suc_ne i k v d, get_or-set_ne es i k x [] (λ e. d (sym e))) (h.holds k q)
    ];
    onward = λ k q. elim (Bool-cases (k == i)) [
      | inl same ↦
          let e : k ≡ i = ground arith in
          rw (e, placed-suc_self i v) (sym (closed (at i) (λ d. h.first d)))
      | inr far ↦
          let d : k ≢ i = ground arith in placed-suc_ne i k v d ∙ both k q d (placed i v k) refl
    ];
  }
    where
      closed : (k : ℕ) → (k ≢ i → placed i v k ≡ true) → placed (i + 1) v k ≡ true
      closed k t = elim (Bool-cases (k == i)) [
        | inl same ↦ let e : k ≡ i = ground arith in rw e (placed-suc_self i v)
        | inr far ↦ let d : k ≢ i = ground arith in placed-suc_ne i k v d ∙ t d
      ]

      opened :
          (k : ℕ) → k < length xs → k ≢ i → placed i v k ≡ false → placed (i + 1) v (at k) ≡ false
      opened k q d f = elim (Bool-cases (at k == i)) [
        | inl to_start ↦
            let e : at k ≡ i = ground arith in
            let (b, inside, to, done) = h.before in
            let same : b ≡ k = perm.once b k inside q (to ∙ sym e) in
            absurd (cc (rw same at (done (λ w. d (sym same ∙ w))), f))
        | inr past ↦
            placed-suc_ne i (at k) v (ground arith) ∙ elim (Bool-cases (placed i v (at k))) [
              | inl t ↦ absurd (cc (h.back k q t d, f))
              | inr g ↦ g
            ]
      ]

      both :
          (k : ℕ)
          → k < length xs
          → k ≢ i
          → (b : Bool) → placed i v k ≡ b
          → b ≡ placed (i + 1) v (at k)
      both k q d true t = sym (closed (at k) (λ w. h.onward k q t w))
      both k q d false f = sym (opened k q d f)

  -- An index that a cycle has visited is passed over.
  skip-IsOuter :
      (i : ℕ) (es : List Bytes) (v : List Bool)
      → IsOuter i es v
      → get_or v i false ≡ true
      → IsOuter (i + 1) es v
  skip-IsOuter i es v h visited = record {
    es_size = h.es_size;
    v_size = h.v_size;
    holds = λ k q. rw (same k) (h.holds k q);
    onward = λ k q. same k ∙ h.onward k q ∙ sym (same (at k));
  }
    where
      same : (k : ℕ) → placed (i + 1) v k ≡ placed i v k
      same k = elim (Bool-cases (k == i)) [
        | inl here ↦ let e : k ≡ i = ground arith in rw e (ground arith)
        | inr far ↦ placed-suc_ne i k v (ground arith)
      ]

  cycle_sort-IsOuter :
      (k i : ℕ) (es : List Bytes) (v : List Bool)
      → i + k ≡ length xs
      → IsOuter i es v
      → (ys : List Bytes) × (w : List Bool) × (cycle_sort p i k es v ≡ some ys)
        × IsOuter (length xs) ys w
  unfolding cycle_sort
  cycle_sort-IsOuter zero i es v e h =
      let all : i ≡ length xs = omega arith in (es, v, refl, subst (λ n. IsOuter n es v) all h)
  cycle_sort-IsOuter (suc k) i es v e h = elim (Bool-cases (get_or v i false)) [
    | inl visited ↦
        let (ys, w, ran, h') =
          cycle_sort-IsOuter k (i + 1) es v (omega arith) (skip-IsOuter i es v h visited) in
        (ys, w, rw (visited, cycle_sort) ran, h')
    | inr fresh ↦
        let open_i : placed i v i ≡ false = ground arith in
        let inner = start-IsInner i es v h (omega arith) open_i in
        let (es', v', moved, h') =
          move_cycle-IsInner xs p perm i (length es) (at i) es v inner
            (omega (arith, left-le-length v, h.v_size, h.es_size)) in
        let value : get_or es (at i) [] ≡ get_or xs (at i) [] =
          rw (sym (h.onward i (omega arith)) ∙ open_i) at
            (h.holds (at i) (perm.inside i (omega arith))) in
        let (ys, w, ran, h'') =
          cycle_sort-IsOuter k (i + 1) (set es' i (get_or es (at i) [])) v' (omega arith)
            (close-IsOuter i es' v' (get_or es (at i) []) h' value) in
        (ys, w, rw (fresh, moved, cycle_sort) ran, h'')
  ]

  -- For a permutation of the indexes the cycle sort ends, and leaves at each index the element that the
  -- permutation names there.
  pub create-eq :
      (ys : List Bytes) × (create p xs ≡ some ys)
      × (length ys ≡ length xs)
      × ((k : ℕ) → k < length xs → get_or ys k [] ≡ get_or xs (get_or p k 0) [])
  unfolding create
  create-eq =
      let none_placed : (k : ℕ) → placed 0 (replicate (length xs) false) k ≡ false = λ k.
        let z : ltb k 0 ≡ false = ground arith in rw z (get_or-replicate (length xs) k false) in
      let (ys, w, ran, h) =
        cycle_sort-IsOuter (length xs) 0 xs (replicate (length xs) false) (omega arith) (record {
          es_size = refl;
          v_size = length-replicate (length xs) false;
          holds = λ k q. rw (none_placed k) refl;
          onward = λ k q. none_placed k ∙ sym (none_placed (at k));
        }) in
      (
        ys,
        ran,
        h.es_size,
        λ k q. let past : placed (length xs) w k ≡ true = ground arith in rw past at (h.holds k q),
      )
