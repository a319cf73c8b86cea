-- ===== src/Parallel/Schedule.antt =====
-- Every interleaving of the shards of private_set_intersection/cpp/parallel_ec.cpp gives what one
-- thread gives.
use open_mined_psi.Base.{
  ℕ, zero, suc, ◌+◌, ◌-◌, ◌≤◌, ◌<◌, ◌≡◌, ◌≢◌, refl, sym, ap, ◌∙◌, Bytes, List, [], ◌∷◌, length,
  get_or, set, ltb, ◌==◌, arith, Bool-cases, inl, inr, length-set, length-replicate,
  get_or-set_self, get_or-set_ne,
}
use native.Mathlib.Numerals.{add-one}
use open_mined_psi.Status.{Error, Result, ok, err, Result-cases}
use open_mined_psi.Parallel.{
  returned, transform_single, Work, Ciphers, shard_start, assign, start_work, end_of, shard_step,
}
use open_mined_psi.Parallel.Ranges.{shard_start_mono, shard_start_last}

ok-ne-err : {y : Bytes} {e : Error} → ok y ≢ err e
ok-ne-err h = cc

module _ (op : Bytes → Result Bytes) where
  -- One thread, where every element succeeds, and where the first failure is at `j`.
  pub single_ok :
      (xs ys : List Bytes)
      → length ys ≡ length xs
      → ((i : ℕ) → i < length xs → op (get_or xs i []) ≡ ok (get_or ys i []))
      → transform_single op xs ≡ ok ys
  unfolding transform_single
  single_ok [] [] e h = refl
  single_ok [] (y ∷ ys) e h = absurd (omega arith)
  single_ok (x ∷ xs) [] e h = absurd (omega arith)
  single_ok (x ∷ xs) (y ∷ ys) e h =
      let first : op x ≡ ok y = h 0 (omega arith) in
      let rest = single_ok xs ys (omega arith) (λ i p. h (suc i) (omega arith)) in
      rw (first, transform_single, rest)

  abbrev pub Succeeds : Bytes → Type 0
  Succeeds x = (y : Bytes) × (op x ≡ ok y)

  pub single_err :
      (xs : List Bytes) (j : ℕ) (e : Error)
      → j < length xs
      → op (get_or xs j []) ≡ err e
      → ((i : ℕ) → i < j → Succeeds (get_or xs i []))
      → transform_single op xs ≡ err e
  unfolding transform_single
  single_err [] j e p bad before = elim p [ ]
  single_err (x ∷ xs) zero e p bad before =
      let here : op x ≡ err e = bad in rw (here, transform_single)
  single_err (x ∷ xs) (suc j) e p bad before =
      let (y, first) = before 0 (omega arith) in
      let here : op x ≡ ok y = first in
      let rest = single_err xs j e (omega arith) bad (λ i q. before (suc i) (omega arith)) in
      rw (here, transform_single, rest)

module _ (ciphers : Ciphers) (inputs : List Bytes) (num_threads : ℕ) (op : Bytes → Result Bytes)
    (alike : (t : ℕ) → t < num_threads → ciphers t ≡ ok (λ x. returned (op x))) where
  abbrev pub start_of : ℕ → ℕ
  start_of t = shard_start (length inputs) num_threads t

  -- What holds of the work in progress, whichever shards have moved.
  pub record IsSound (w : Work) : Type 0 where
    pub size : length w.outputs ≡ length inputs
    pub low : (t : ℕ) → t < num_threads → start_of t ≤ w.next t
    pub high : (t : ℕ) → t < num_threads → w.next t ≤ start_of (suc t)
    pub written :
        (t i : ℕ)
        → t < num_threads
        → start_of t ≤ i
        → i < w.next t
        → op (get_or inputs i []) ≡ ok (get_or w.outputs i [])
    pub failed :
        (t : ℕ) (e : Error)
        → t < num_threads
        → w.shard_status t ≡ err e
        → (w.next t < start_of (suc t)) × (op (get_or inputs (w.next t) []) ≡ err e)

  pub before_or_after : (t u : ℕ) → t < u → start_of (suc t) ≤ start_of u
  before_or_after t u h =
      let e : suc t + (u - suc t) ≡ u = omega arith in
      omega (arith, shard_start_mono (length inputs) num_threads (suc t) (u - suc t), ap start_of e)

  pub within : (t : ℕ) → t < num_threads → start_of (suc t) ≤ length inputs
  within t h = elim (Bool-cases (suc t == num_threads)) [
    | inl last ↦
        let e : suc t ≡ num_threads = ground arith in
        omega (arith, ap start_of e, shard_start_last (length inputs) num_threads (omega arith))
    | inr more ↦ omega (
      arith,
      before_or_after t num_threads h,
      shard_start_last (length inputs) num_threads (omega arith),
    )
  ]

  pub start-IsSound : IsSound (start_work ciphers inputs num_threads)
  unfolding start_work
  start-IsSound = record {
    size = length-replicate (length inputs) [];
    low = λ t h. omega arith;
    high = λ t h.
        omega (arith, shard_start_mono (length inputs) num_threads t 1, ap start_of (add-one t));
    written = λ t i h p q. absurd (omega arith);
    failed = λ t e h q. cc;
  }

  -- A shard fails at its next element.
  fail-IsSound :
      (t : ℕ) (e : Error) (w : Work)
      → t < num_threads
      → w.next t < start_of (suc t)
      → op (get_or inputs (w.next t) []) ≡ err e
      → IsSound w
      → IsSound (record w { shard_status = assign w.shard_status t (err e) })
  fail-IsSound t e w h p bad v = record {
    size = v.size;
    low = v.low;
    high = v.high;
    written = v.written;
    failed = λ u x q s. elim (Bool-cases (u == t)) [
      | inl same ↦
          let here : u ≡ t = ground arith in
          let cause : e ≡ x = ground arith in rw (here, ← cause) (p, bad)
      | inr other ↦ v.failed u x q (ground arith)
    ];
  }

  -- A shard writes its next element.
  write-IsSound :
      (t : ℕ) (y : Bytes) (w : Work)
      → t < num_threads
      → w.next t < start_of (suc t)
      → op (get_or inputs (w.next t) []) ≡ ok y
      → IsSound w
      → IsSound
          (record w { outputs = set w.outputs (w.next t) y; next = assign w.next t (w.next t + 1) })
  write-IsSound t y w h p fine v = record {
    size = length-set w.outputs (w.next t) y ∙ v.size;
    low = λ u q. elim (Bool-cases (u == t)) [
      | inl same ↦ rw same (let here : u ≡ t = ground arith in rw here (omega (arith, v.low t h)))
      | inr other ↦ rw other (v.low u q)
    ];
    high = λ u q. elim (Bool-cases (u == t)) [
      | inl same ↦ rw same (let here : u ≡ t = ground arith in rw here (omega arith))
      | inr other ↦ rw other (v.high u q)
    ];
    written = λ u i q lo hi. elim (Bool-cases (i == w.next t)) [
      | inl here ↦
          let at_next : i ≡ w.next t = ground arith in
          let room : w.next t < length w.outputs = omega (arith, within t h, v.size) in
          rw (at_next, get_or-set_self w.outputs (w.next t) y [] room) fine
      | inr apart ↦ rw (get_or-set_ne w.outputs (w.next t) i y [] (ground arith)) (
          v.written u i q lo (elim (Bool-cases (u == t)) [
            | inl same ↦ let mine : u ≡ t = ground arith in rw mine (ground arith)
            | inr other ↦ rw other at hi
          ]))
    ];
    failed = λ u x q s. elim (Bool-cases (u == t)) [
      | inl same ↦
          let here : u ≡ t = ground arith in
          let (less, bad) = v.failed u x q s in
          absurd
            (ok-ne-err (sym fine ∙ ap (λ k. op (get_or inputs (w.next k) [])) (sym here) ∙ bad))
      | inr other ↦ rw other (v.failed u x q s)
    ];
  }

  pub shard_step-IsSound :
      (t : ℕ) (w : Work)
      → t < num_threads
      → IsSound w
      → IsSound (shard_step ciphers inputs num_threads t w)
  unfolding shard_step end_of
  shard_step-IsSound t w h v = elim (Result-cases (w.shard_status t)) [
    | inr (e, over) ↦ rw (over, shard_step) v
    | inl (_, live) ↦ elim (Bool-cases (ltb (w.next t) (start_of (suc t)))) [
      | inr ended ↦ rw (live, alike t h, ended, shard_step, end_of) v
      | inl more ↦ elim (Result-cases (op (get_or inputs (w.next t) []))) [
        | inl (y, fine) ↦
            rw (live, alike t h, more, fine, shard_step, end_of)
              (write-IsSound t y w h (ground arith) fine v)
        | inr (e, bad) ↦
            rw (live, alike t h, more, bad, shard_step, end_of)
              (fail-IsSound t e w h (ground arith) bad v)
      ]
    ]
  ]
