-- ===== src/Parallel.antt =====
-- `TransformElements` of private_set_intersection/cpp/parallel_ec.cpp: the sharding of a list of inputs
-- over threads, with any interleaving of the shards as a schedule.
pub mod Ranges
pub mod Schedule
pub mod Joined
pub mod Live
use open_mined_psi.Base.{
  ℕ, zero, suc, ◌+◌, ◌/◌, ◌%◌, min, max, Bytes, List, [], ◌∷◌, length, get_or, set, replicate, ltb,
  leb, ◌==◌, if◌then◌else◌,
}
use open_mined_psi.Status.{shard_failed, resource_exhausted, Error, Result, ok, err, Status, done}

abbrev pub min_inputs_for_threads : ℕ
min_inputs_for_threads = 1024

abbrev pub min_inputs_per_thread : ℕ
min_inputs_per_thread = 512

-- `hardware` is what `std::thread::hardware_concurrency()` returned.
unfoldable pub choose_thread_count : ℕ → ℕ → ℕ
choose_thread_count hardware n =
    if ltb n min_inputs_for_threads
    then 1
    else let hw = if hardware == 0 then 1 else hardware in
      max 1 (min hw (n / min_inputs_per_thread))

-- The length of shard `t`, and where it starts: the loop adds the lengths up.
unfoldable pub shard_length : ℕ → ℕ → ℕ → ℕ
shard_length n num_threads t = n / num_threads + (if ltb t (n % num_threads) then 1 else 0)

unfoldable pub shard_start : ℕ → ℕ → ℕ → ℕ
shard_start n num_threads zero = 0
shard_start n num_threads (suc t) = shard_start n num_threads t + shard_length n num_threads t

-- One call of the element operation: a status or a value, or an exception.
pub data Call : Type 0 where
  returned : Result Bytes → Call
  threw : Call

-- The one loop for a single thread.
unfoldable pub transform_single : (Bytes → Result Bytes) → List Bytes → Result (List Bytes)
transform_single op [] = ok []
transform_single op (x ∷ xs) = elim (op x) [
  | err e ↦ err e
  | ok y ↦ elim (transform_single op xs) [ err e ↦ err e | ok ys ↦ ok (y ∷ ys) ]
]

-- The shards at work: the shared outputs, and by shard its next index and its status.
pub record Work : Type 0 where
  pub outputs : List Bytes
  pub next : ℕ → ℕ
  pub shard_status : ℕ → Status

abbrev pub assign {ℓ} : {A : Type ℓ} → (ℕ → A) → ℕ → A → ℕ → A
assign f t a u = if u == t then a else f u

-- The cipher of a shard: the primary for shard 0, else a clone, whose construction may fail.
abbrev pub Ciphers : Type 0
Ciphers = ℕ → Result (Bytes → Call)

module _ (ciphers : Ciphers) (inputs : List Bytes) (num_threads : ℕ) where
  unfoldable pub start_work : Work
  start_work = record {
    outputs = replicate (length inputs) [];
    next = shard_start (length inputs) num_threads;
    shard_status = λ _. done;
  }

  unfoldable pub end_of : ℕ → ℕ
  end_of t = shard_start (length inputs) num_threads (suc t)

  -- Shard `t` takes its next element: one round of the loop of `run_shard`.
  unfoldable pub shard_step : ℕ → Work → Work
  shard_step t w = elim (w.shard_status t) [
    | err e ↦ w
    | ok _ ↦ elim (ciphers t) [
      | err e ↦ record w { shard_status = assign w.shard_status t (err e) }
      | ok op ↦
          if ltb (w.next t) (end_of t)
          then elim (op (get_or inputs (w.next t) [])) [
            | threw ↦ record w {
              shard_status = assign w.shard_status t (err (resource_exhausted shard_failed));
            }
            | returned r ↦ elim r [
              | err e ↦ record w { shard_status = assign w.shard_status t (err e) }
              | ok y ↦ record w {
                outputs = set w.outputs (w.next t) y;
                next = assign w.next t (w.next t + 1);
              }
            ]
          ]
          else w
    ]
  ]

  -- A schedule says which shard moves next.
  unfoldable pub run_schedule : List ℕ → Work → Work
  run_schedule [] w = w
  run_schedule (t ∷ ts) w = run_schedule ts (shard_step t w)

  -- After the joins: the first refusal among the first `k` shards from shard `t`.
  unfoldable pub first_refusal : Work → ℕ → ℕ → Status
  first_refusal w t zero = done
  first_refusal w t (suc k) = elim (w.shard_status t) [
    | err e ↦ err e
    | ok _ ↦ first_refusal w (t + 1) k
  ]

  unfoldable pub transform_sharded : Work → Result (List Bytes)
  transform_sharded w = elim (first_refusal w 0 num_threads) [ err e ↦ err e | ok _ ↦ ok w.outputs ]
