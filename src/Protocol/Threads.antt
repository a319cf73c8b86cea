-- ===== src/Protocol/Threads.antt =====
-- The build with threads: `TransformElements` as a whole and its three uses in
-- private_set_intersection/cpp/parallel_ec.cpp. `hardware` is the number of hardware threads, `clone`
-- what `CloneCipher` gives each shard, and a schedule says which shard moves next. No exception is
-- thrown.
use open_mined_psi.Base.{
  ℕ, zero, suc, ◌<◌, ◌≤◌, ◌≡◌, refl, leb, true, false, Bytes, List, [], ◌∷◌, length, arith,
  Bool-cases, inl, inr,
}
use open_mined_psi.Status.{Result, ok, err}
use open_mined_psi.Parallel.{
  returned, Ciphers, choose_thread_count, transform_single, start_work, run_schedule,
  transform_sharded, shard_length,
}
use open_mined_psi.Parallel.Joined.{Within, sharded-single}
use open_mined_psi.Parallel.Live.{moves, run_schedule-IsFinished}
use open_mined_psi.Protocol.{Cipher}

-- `ElementOp`
abbrev pub ElementOp : Type 0
ElementOp = Cipher → Bytes → Result Bytes

-- Shard 0 has the primary cipher, every other shard a clone, whose construction may fail.
unfoldable pub shard_ciphers : ElementOp → Cipher → (ℕ → Result Cipher) → Ciphers
shard_ciphers op primary clone zero = ok (λ x. returned (op primary x))
shard_ciphers op primary clone (suc t) = elim (clone (suc t)) [
  | err e ↦ err e
  | ok cipher ↦ ok (λ x. returned (op cipher x))
]

module _ (hardware : ℕ) (primary : Cipher) (clone : ℕ → Result Cipher) (schedule : List ℕ) where
  unfoldable pub transform_elements : ElementOp → List Bytes → Result (List Bytes)
  transform_elements op [] = ok []
  transform_elements op (x ∷ xs) =
      let inputs = x ∷ xs in
      let num_threads = choose_thread_count hardware (length inputs) in
      let ciphers = shard_ciphers op primary clone in
      elim (leb num_threads 1) [
        | true ↦ transform_single (op primary) inputs
        | false ↦ transform_sharded ciphers inputs num_threads (
            run_schedule ciphers inputs num_threads schedule
              (start_work ciphers inputs num_threads))
      ]

  unfoldable pub encrypt_elements : List Bytes → Result (List Bytes)
  encrypt_elements inputs = transform_elements (λ cipher input. cipher.encrypt input) inputs

  unfoldable pub re_encrypt_elements : List Bytes → Result (List Bytes)
  re_encrypt_elements inputs = transform_elements (λ cipher input. cipher.re_encrypt input) inputs

  unfoldable pub decrypt_elements : List Bytes → Result (List Bytes)
  decrypt_elements inputs = transform_elements (λ cipher input. cipher.decrypt input) inputs

  module _ (alike : (t : ℕ) → clone t ≡ ok primary) where
    ciphers_alike :
        (op : ElementOp) (t : ℕ)
        → shard_ciphers op primary clone t ≡ ok (λ x. returned (op primary x))
    unfolding shard_ciphers
    ciphers_alike op zero = refl
    ciphers_alike op (suc t) = rw (alike (suc t), shard_ciphers)

    -- Each entry of the schedule names a shard, and every shard moves at least as often as it has
    -- elements, where there are several.
    abbrev pub IsFair : List Bytes → Type 0
    IsFair inputs =
        1 < choose_thread_count hardware (length inputs)
        → Within (choose_thread_count hardware (length inputs)) schedule
          × ((t : ℕ)
              → t < choose_thread_count hardware (length inputs)
              → shard_length (length inputs) (choose_thread_count hardware (length inputs)) t
                ≤ moves t schedule)

    -- For any element operation, number of hardware threads and interleaving in which every shard gets
    -- its turns, with clones that act as the primary cipher does, the threaded transform gives what one
    -- loop gives: every output in its place, or the error of the first input that fails.
    pub transform_elements-single :
        (op : ElementOp) (inputs : List Bytes)
        → IsFair inputs
        → transform_elements op inputs ≡ transform_single (op primary) inputs
    unfolding transform_elements
    transform_elements-single op [] fair = unfold transform_single in refl
    transform_elements-single op (x ∷ xs) fair =
        elim (Bool-cases (leb (choose_thread_count hardware (length (x ∷ xs))) 1)) [
          | inl few ↦ rw (few, transform_elements)
          | inr many ↦
              let num_threads = choose_thread_count hardware (length (x ∷ xs)) in
              let (within, turns) = fair (ground arith) in
              rw (many, transform_elements)
                (sharded-single (shard_ciphers op primary clone) (x ∷ xs) num_threads (op primary)
                  (λ t h. ciphers_alike op t) schedule (ground arith) within
                  (run_schedule-IsFinished (shard_ciphers op primary clone) (x ∷ xs) num_threads
                    schedule turns))
        ]
