-- ===== src/Parallel/Live.antt =====
-- Progress of the shards of private_set_intersection/cpp/parallel_ec.cpp: a schedule that lets every
-- shard move as often as it has elements brings every shard to its end.
use open_mined_psi.Base.{
  ℕ, zero, suc, ◌+◌, min, ◌==◌, ◌≤◌, ◌<◌, ◌≡◌, ◌⊎◌, refl, sym, subst, ◌∙◌, true, false, Bytes, List,
  [], ◌∷◌, ◌++◌, length, get_or, set, replicate, ltb, if◌then◌else◌, arith, Bool-cases, inl, inr,
}
use open_mined_psi.Status.{resource_exhausted, shard_failed, Error, Result, err, done, Result-cases}
use open_mined_psi.Parallel.{
  Call, returned, threw, Ciphers, Work, assign, shard_length, shard_start, start_work, end_of,
  shard_step, run_schedule,
}
use open_mined_psi.Parallel.Joined.{IsFinished}

-- How often shard `t` moves in a schedule.
unfoldable pub moves : ℕ → List ℕ → ℕ
moves t [] = 0
moves t (u ∷ ts) = if u == t then suc (moves t ts) else moves t ts

pub moves-append : (t : ℕ) (ts us : List ℕ) → moves t (ts ++ us) ≡ moves t ts + moves t us
unfolding moves
moves-append t [] us = omega arith
moves-append t (u ∷ ts) us = ground (arith, moves-append t ts us)

pub moves-replicate : (t n : ℕ) → moves t (replicate n t) ≡ n
unfolding moves
moves-replicate t zero = refl
moves-replicate t (suc n) = ground (arith, moves-replicate t n)

Call-cases : (c : Call) → (c ≡ threw) ⊎ ((r : Result Bytes) × (c ≡ returned r))
Call-cases threw = inl refl
Call-cases (returned r) = inr (r, refl)

module _ (ciphers : Ciphers) (inputs : List Bytes) (num_threads : ℕ) (t : ℕ) where
  abbrev step : ℕ → Work → Work
  step u w = shard_step ciphers inputs num_threads u w

  abbrev end_t : ℕ
  end_t = end_of ciphers inputs num_threads t

  -- What a move of shard `u` does: nothing, as it has failed or is at its end, or it fails, or it takes
  -- its next element.
  data Moved (u : ℕ) (w : Work) : Type 0 where
    over : (e : Error) → w.shard_status u ≡ err e → step u w ≡ w → Moved u w
    ended :
        w.shard_status u ≡ done
        → ltb (w.next u) (end_of ciphers inputs num_threads u) ≡ false
        → step u w ≡ w
        → Moved u w
    fails :
        (e : Error)
        → step u w ≡ record w { shard_status = assign w.shard_status u (err e) }
        → Moved u w
    takes :
        (y : Bytes)
        → w.shard_status u ≡ done
        → ltb (w.next u) (end_of ciphers inputs num_threads u) ≡ true
        → step u w
          ≡ record w { outputs = set w.outputs (w.next u) y; next = assign w.next u (w.next u + 1) }
        → Moved u w

  step-Moved : (u : ℕ) (w : Work) → Moved u w
  unfolding shard_step
  step-Moved u w = elim (Result-cases (w.shard_status u)) [
    | inr (e, failed) ↦ over e failed (rw (failed, shard_step))
    | inl (_, live) ↦ elim (Result-cases (ciphers u)) [
      | inr (e, refused) ↦ fails e (rw (live, refused, shard_step))
      | inl (op, given) ↦ elim (Bool-cases (ltb (w.next u) (end_of ciphers inputs num_threads u))) [
        | inr less ↦ ended live less (rw (live, given, less, shard_step))
        | inl more ↦ elim (Call-cases (op (get_or inputs (w.next u) []))) [
          | inl up ↦
              fails (resource_exhausted shard_failed) (rw (live, given, more, up, shard_step))
          | inr (r, back) ↦ elim (Result-cases r) [
            | inr (e, bad) ↦ fails e (rw (live, given, more, back, bad, shard_step))
            | inl (y, fine) ↦ takes y live more (rw (live, given, more, back, fine, shard_step))
          ]
        ]
      ]
    ]
  ]

  -- A move of another shard.
  other_step :
      (u : ℕ) (w : Work)
      → (t == u) ≡ false
      → ((step u w).shard_status t ≡ w.shard_status t) × ((step u w).next t ≡ w.next t)
  other_step u w apart = elim (step-Moved u w) [
    | over e failed same ↦ rw same (refl, refl)
    | ended live less same ↦ rw same (refl, refl)
    | fails e made ↦ rw made (rw apart (refl, refl))
    | takes y live more made ↦ rw made (rw apart (refl, refl))
  ]

  -- A move of the shard itself, after which it has not failed, takes it one element on.
  self_step :
      (w : Work)
      → w.next t ≤ end_t
      → (step t w).shard_status t ≡ done
      → (w.shard_status t ≡ done) × ((step t w).next t ≡ min end_t (w.next t + 1))
  self_step w h s =
      let here : (t == t) ≡ true = ground arith in
      elim (step-Moved t w) [
        | over e failed same ↦ absurd (cc (rw same at s, failed))
        | ended live less same ↦ (live, rw same (ground arith))
        | fails e made ↦ absurd (cc (rw here at (rw made at s)))
        | takes y live more made ↦ (live, rw made (rw here (ground arith)))
      ]

  -- A shard does not pass its end.
  self_room : (w : Work) → w.next t ≤ end_t → (step t w).next t ≤ end_t
  self_room w h =
      let here : (t == t) ≡ true = ground arith in
      elim (step-Moved t w) [
        | over e failed same ↦ rw same h
        | ended live less same ↦ rw same h
        | fails e made ↦ rw made h
        | takes y live more made ↦ rw made (rw here (ground arith))
      ]

  abbrev run : List ℕ → Work → Work
  run ts w = run_schedule ciphers inputs num_threads ts w

  -- A schedule after which shard `t` has not failed has taken it one element on at each of its moves,
  -- until its end.
  run_next :
      (ts : List ℕ) (w : Work)
      → w.next t ≤ end_t
      → (run ts w).shard_status t ≡ done
      → (w.shard_status t ≡ done) × ((run ts w).next t ≡ min end_t (w.next t + moves t ts))
  unfolding run_schedule moves
  run_next [] w h s = (s, omega arith)
  run_next (u ∷ ts) w h s = elim (Bool-cases (t == u)) [
    | inr apart ↦
        let (status, next) = other_step u w apart in
        let (live, went) = run_next ts (step u w) (omega (arith, next)) s in
        let counted : (u == t) ≡ false = ground arith in
        (sym status ∙ live, went ∙ rw (next, counted) refl)
    | inl same ↦
        let here : u ≡ t = ground arith in
        let (live, went) =
          run_next ts (step t w) (self_room w h)
            (subst (λ v. (run ts (step v w)).shard_status t ≡ done) here s) in
        let (before, next) = self_step w h live in
        (
          before,
          subst (λ v. (run ts (step v w)).next t ≡ min end_t (w.next t + moves t (v ∷ ts)))
              (sym here) (went ∙ ground (arith, next)),
        )
  ]

module _ (ciphers : Ciphers) (inputs : List Bytes) (num_threads : ℕ) where
  -- From the start, a schedule in which every shard moves at least as often as it has elements leaves
  -- each of them failed or at its end.
  pub run_schedule-IsFinished :
      (ts : List ℕ)
      → ((t : ℕ) → t < num_threads → shard_length (length inputs) num_threads t ≤ moves t ts)
      → IsFinished ciphers inputs num_threads
          (run_schedule ciphers inputs num_threads ts (start_work ciphers inputs num_threads))
  unfolding start_work end_of shard_start
  run_schedule-IsFinished ts fair t h s =
      let (_, went) =
        run_next ciphers inputs num_threads t ts (start_work ciphers inputs num_threads)
          (omega arith) s in
      went ∙ omega (arith, fair t h)
