-- ===== src/Parallel/Joined.antt =====
-- What `TransformElements` of private_set_intersection/cpp/parallel_ec.cpp returns after the joins.
use open_mined_psi.Base.{
  ℕ, zero, suc, ◌+◌, ◌≤◌, ◌<◌, ◌≡◌, sym, Bytes, List, [], ◌∷◌, length, get_or, ltb, ◌==◌, arith,
  Bool-cases, inl, inr,
}
use open_mined_psi.Status.{Result, ok, err, Status, done, Result-cases}
use open_mined_psi.Parallel.{
  returned, transform_single, Work, Ciphers, shard_start, start_work, end_of, shard_step,
  run_schedule, first_refusal, transform_sharded,
}
use open_mined_psi.Parallel.Ranges.{shard_start_last}
use open_mined_psi.Parallel.Schedule.{
  single_ok, single_err, IsSound, start-IsSound, shard_step-IsSound, within,
}

-- Each entry of a schedule names a shard.
abbrev pub Within : ℕ → List ℕ → Type 0
Within n [] = Unit
Within n (t ∷ ts) = (t < n) × Within n ts

-- Every shard has failed or has no element left.
abbrev pub IsFinished : Ciphers → List Bytes → ℕ → Work → Type 0
IsFinished ciphers inputs num_threads w =
    (t : ℕ)
    → t < num_threads
    → w.shard_status t ≡ done
    → w.next t ≡ end_of ciphers inputs num_threads t

module _ (ciphers : Ciphers) (inputs : List Bytes) (num_threads : ℕ) (op : Bytes → Result Bytes)
    (alike : (t : ℕ) → t < num_threads → ciphers t ≡ ok (λ x. returned (op x))) where
  abbrev Sound : Work → Type 0
  Sound w = IsSound ciphers inputs num_threads op alike w

  abbrev start : ℕ → ℕ
  start t = shard_start (length inputs) num_threads t

  run_schedule-Sound :
      (ts : List ℕ) (w : Work)
      → Within num_threads ts
      → Sound w
      → Sound (run_schedule ciphers inputs num_threads ts w)
  unfolding run_schedule
  run_schedule-Sound [] w h v = v
  run_schedule-Sound (t ∷ ts) w h v =
      run_schedule-Sound ts (shard_step ciphers inputs num_threads t w) h.1
        (shard_step-IsSound ciphers inputs num_threads op alike t w h.0 v)

  -- The shards before `k`, none of which failed, have written every element before where `k` starts.
  covered :
      (w : Work)
      → Sound w
      → IsFinished ciphers inputs num_threads w
      → (k : ℕ) → k ≤ num_threads
      → ((t : ℕ) → t < k → w.shard_status t ≡ done)
      → (i : ℕ) → i < start k
      → op (get_or inputs i []) ≡ ok (get_or w.outputs i [])
  unfolding end_of shard_start
  covered w v fin zero b ok_all i h = elim h [ ]
  covered w v fin (suc k) b ok_all i h = elim (Bool-cases (ltb i (start k))) [
    | inl less ↦ covered w v fin k (omega arith) (λ t p. ok_all t (omega arith)) i (ground arith)
    | inr more ↦
        let last = fin k (omega arith) (ok_all k (omega arith)) in
        v.written k i (omega arith) (ground arith) (omega arith)
  ]

  -- How the scan of the statuses ends.
  abbrev Scanned : Work → ℕ → Status → Type 0
  Scanned w n (ok _) = (u : ℕ) → u < n → w.shard_status u ≡ done
  Scanned w n (err e) =
      (u : ℕ) × (w.shard_status u ≡ err e)
      × (u < n)
      × ((u' : ℕ) → u' < u → w.shard_status u' ≡ done)

  done_below :
      (w : Work) (t : ℕ)
      → ((u : ℕ) → u < t → w.shard_status u ≡ done)
      → w.shard_status t ≡ done
      → (u : ℕ) → u < t + 1
      → w.shard_status u ≡ done
  done_below w t before fine u p = elim (Bool-cases (u == t)) [
    | inl same ↦ let here : u ≡ t = ground arith in rw here fine
    | inr other ↦ before u (ground arith)
  ]

  scan :
      (w : Work) (k t n : ℕ)
      → t + k ≡ n
      → ((u : ℕ) → u < t → w.shard_status u ≡ done)
      → Scanned w n (first_refusal ciphers inputs num_threads w t k)
  unfolding first_refusal
  scan w zero t n e before = λ u p. before u (omega arith)
  scan w (suc k) t n e before = elim (Result-cases (w.shard_status t)) [
    | inr (x, bad) ↦ rw (bad, first_refusal) (t, bad, omega arith, before)
    | inl (_, fine) ↦
        rw (fine, first_refusal) (scan w k (t + 1) n (omega arith) (done_below w t before fine))
  ]

  -- The result from a sound and finished state.
  joined :
      (w : Work)
      → 0 < num_threads
      → Sound w
      → IsFinished ciphers inputs num_threads w
      → transform_sharded ciphers inputs num_threads w ≡ transform_single op inputs
  unfolding transform_sharded
  joined w some_threads v fin =
      let scanned = scan w num_threads 0 num_threads (omega arith) (λ u p. elim p [ ]) in
      elim (Result-cases (first_refusal ciphers inputs num_threads w 0 num_threads)) [
        | inl (_, fine) ↦
            let all_done = rw fine at scanned in
            let last = shard_start_last (length inputs) num_threads some_threads in
            rw (fine, transform_sharded)
              (sym (
                single_ok op inputs w.outputs v.size
                  (λ i p. covered w v fin num_threads (omega arith) all_done i (omega arith))))
        | inr (e, bad) ↦
            let (u, failed, inside, before) = rw bad at scanned in
            let (room, here) = v.failed u e inside failed in
            rw (bad, transform_sharded)
              (sym (
                single_err op inputs (w.next u) e
                  (omega (arith, within ciphers inputs num_threads op alike u inside)) here
                  (λ i p. elim (Bool-cases (ltb i (start u))) [
                    | inl less ↦ (
                      get_or w.outputs i [],
                      covered w v fin u (omega arith) before i (ground arith),
                    )
                    | inr more ↦ (get_or w.outputs i [], v.written u i inside (ground arith) p)
                  ])))
      ]

  -- Whatever the interleaving, once every shard has failed or finished, the result is that of one
  -- thread: the outputs in input order, or the failure of the first input that fails.
  pub sharded-single :
      (ts : List ℕ)
      → 0 < num_threads
      → Within num_threads ts
      → IsFinished ciphers inputs num_threads
          (run_schedule ciphers inputs num_threads ts (start_work ciphers inputs num_threads))
      → transform_sharded ciphers inputs num_threads
          (run_schedule ciphers inputs num_threads ts (start_work ciphers inputs num_threads))
        ≡ transform_single op inputs
  sharded-single ts some_threads h fin =
      joined (run_schedule ciphers inputs num_threads ts (start_work ciphers inputs num_threads))
        some_threads
        (run_schedule-Sound ts (start_work ciphers inputs num_threads) h
          (start-IsSound ciphers inputs num_threads op alike))
        fin
