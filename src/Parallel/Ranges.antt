-- ===== src/Parallel/Ranges.antt =====
-- The shards of private_set_intersection/cpp/parallel_ec.cpp tile the inputs.
use open_mined_psi.Base.{
  ℕ, zero, suc, ◌+◌, ◌*◌, ◌/◌, ◌%◌, min, max, ◌≤◌, ◌<◌, ◌≡◌, refl, ◌∙◌, arith, ltb, ◌==◌,
  Bool-cases, inl, inr,
}
use open_mined_psi.Parallel.{choose_thread_count, shard_length, shard_start}

-- Where shard `t` starts, without the loop.
pub shard_start-eq : (n k t : ℕ) → shard_start n k t ≡ t * (n / k) + min t (n % k)
unfolding shard_start shard_length
shard_start-eq n k zero = omega arith
shard_start-eq n k (suc t) = ground (arith, shard_start-eq n k t)

-- The last shard ends at the last input, so the shards, each starting where the one before ends, cover
-- every input once.
pub shard_start_last : (n k : ℕ) → 0 < k → shard_start n k k ≡ n
shard_start_last n k h = shard_start-eq n k k ∙ grind arith

shard_start-suc : (n k t : ℕ) → shard_start n k (suc t) ≡ shard_start n k t + shard_length n k t
unfolding shard_start
shard_start-suc n k t = refl

pub shard_start_mono : (n k t d : ℕ) → shard_start n k t ≤ shard_start n k (t + d)
shard_start_mono n k t zero = let e : t + 0 ≡ t = omega arith in rw e (omega arith)
shard_start_mono n k t (suc d) =
    let e : t + suc d ≡ suc (t + d) = omega arith in
    rw e (omega (arith, shard_start-suc n k (t + d), shard_start_mono n k t d))

-- There is at least one thread, and never more than the hardware has; with several, each has at least
-- `kMinInputsPerThread` inputs.
pub choose_thread_count_bounds :
    (hardware n : ℕ)
    → (1 ≤ choose_thread_count hardware n)
      × (choose_thread_count hardware n ≤ max 1 hardware)
      × (1 < choose_thread_count hardware n → 512 * choose_thread_count hardware n ≤ n)
unfolding choose_thread_count
choose_thread_count_bounds hardware n = elim (Bool-cases (ltb n 1024)) [
  | inl few ↦ rw few (omega arith, omega arith, λ h. absurd (omega arith))
  | inr many ↦ elim (Bool-cases (hardware == 0)) [
    | inl unknown ↦ rw (many, unknown) (omega arith, omega arith, λ h. absurd (omega arith))
    | inr known ↦ rw (many, known) (omega arith, omega arith, λ h. omega arith)
  ]
]
