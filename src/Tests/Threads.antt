-- ===== src/Tests/Threads.antt =====
-- The shards, the progress counter and the Bloom filter at concrete inputs.
use open_mined_psi.Base.{
  ℕ, zero, suc, ◌+◌, ◌*◌, ◌%◌, ◌≤◌, ◌<◌, ◌^◌, ◌≡◌, refl, Bytes, List, [], ◌∷◌, ◌++◌, some, max,
  arith, true,
}
use open_mined_psi.Status.{Result, ok}
use open_mined_psi.Progress.{
  progress_counter, increments, flush, flush-increments, slot_lag, batch_size,
}
use open_mined_psi.Parallel.{
  choose_thread_count, Ciphers, returned, transform_single, transform_sharded, run_schedule,
  start_work, shard_start, end_of, shard_step, shard_length,
}
use open_mined_psi.Parallel.Ranges.{shard_start_last, choose_thread_count_bounds}
use open_mined_psi.Parallel.Joined.{IsFinished, sharded-single}
use open_mined_psi.Containers.Bloom.{BloomFilter, add, check}
use open_mined_psi.Containers.Bloom.Membership.{check-add}

abbrev op : Bytes → Result Bytes
op x = ok (x ++ 7 ∷ [])

abbrev pub ciphers : Ciphers
ciphers t = ok (λ x. returned (op x))

abbrev pub inputs : List Bytes
inputs = (1 ∷ []) ∷ (2 ∷ []) ∷ (3 ∷ []) ∷ []

abbrev pub schedule : List ℕ
schedule = 1 ∷ 0 ∷ 0 ∷ []

finished :
    IsFinished ciphers inputs 2
      (run_schedule ciphers inputs 2 schedule (start_work ciphers inputs 2))
unfolding run_schedule shard_step start_work end_of shard_start shard_length
finished zero h s = refl
finished (suc zero) h s = refl
finished (suc (suc t)) h s = absurd (omega arith)

sharded-single_example :
    transform_sharded ciphers inputs 2
      (run_schedule ciphers inputs 2 schedule (start_work ciphers inputs 2))
    ≡ transform_single op inputs
sharded-single_example =
    sharded-single ciphers inputs 2 op (λ t h. refl) schedule (omega arith) (omega arith) finished

shard_start_last_example : shard_start 1030 4 4 ≡ 1030
shard_start_last_example = shard_start_last 1030 4 (omega arith)

flush-increments_example :
    (flush (increments 300 (progress_counter (some 5)))).slot ≡ some ((5 + 300) % 2 ^ 32)
flush-increments_example = flush-increments 300 5 (omega arith)

slot_lag_example :
    (w : ℕ) × ((increments 300 (progress_counter (some 0))).slot ≡ some w)
    × (w ≤ 0 + 300)
    × (0 + 300 < w + batch_size)
slot_lag_example = slot_lag 300 0 (omega arith)

abbrev digest : Bytes → ℕ
digest [] = 5
digest (x ∷ xs) = x + 3 * digest xs

abbrev empty_filter : BloomFilter
empty_filter = record { num_hash_functions = 3; bits = 0 ∷ 0 ∷ 0 ∷ [] }

check-add_example :
    check digest (add digest empty_filter ((9 ∷ []) ∷ [] ++ (4 ∷ []) ∷ (8 ∷ []) ∷ [])) (4 ∷ [])
    ≡ true
check-add_example =
    check-add digest empty_filter ((9 ∷ []) ∷ []) (4 ∷ []) ((8 ∷ []) ∷ []) (omega arith)

choose_thread_count_bounds_example :
    (1 ≤ choose_thread_count 8 3000)
    × (choose_thread_count 8 3000 ≤ max 1 8)
    × (1 < choose_thread_count 8 3000 → 512 * choose_thread_count 8 3000 ≤ 3000)
choose_thread_count_bounds_example = choose_thread_count_bounds 8 3000
