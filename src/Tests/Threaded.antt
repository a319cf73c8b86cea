-- ===== src/Tests/Threaded.antt =====
-- The build with threads of private_set_intersection/cpp/parallel_ec.cpp at a concrete input.
use open_mined_psi.Base.{
  ℕ, zero, suc, ◌≤◌, ◌<◌, ◌≡◌, refl, Bytes, List, [], ◌∷◌, ◌++◌, length, replicate, arith,
  length-replicate, append-nil, subst,
}
use open_mined_psi.Parallel.{choose_thread_count, transform_single, shard_length}
use open_mined_psi.Parallel.Joined.{Within, IsFinished}
use open_mined_psi.Parallel.{run_schedule, start_work}
use open_mined_psi.Parallel.Live.{moves, moves-append, moves-replicate, run_schedule-IsFinished}
use open_mined_psi.Status.{Result, ok}
use open_mined_psi.Protocol.{Cipher}
use open_mined_psi.Protocol.Threads.{IsFair, transform_elements, transform_elements-single}
use open_mined_psi.Tests.Ciphers.{client_cipher}
use open_mined_psi.Tests.Threads.{ciphers, inputs, schedule}

Within-replicate : (n m t : ℕ) (ts : List ℕ) → t < n → Within n ts → Within n (replicate m t ++ ts)
Within-replicate n zero t ts h w = w
Within-replicate n (suc m) t ts h w = (h, Within-replicate n m t ts h w)

run_schedule-IsFinished_example :
    IsFinished ciphers inputs 2
      (run_schedule ciphers inputs 2 schedule (start_work ciphers inputs 2))
run_schedule-IsFinished_example = run_schedule-IsFinished ciphers inputs 2 schedule turns
  where
    turns : (t : ℕ) → t < 2 → shard_length (length inputs) 2 t ≤ moves t schedule
    turns zero h = unfold shard_length moves in omega arith
    turns (suc zero) h = unfold shard_length moves in omega arith
    turns (suc (suc t)) h = absurd (omega arith)

abbrev clone : ℕ → Result Cipher
clone t = ok client_cipher

two_threads : choose_thread_count 2 1024 ≡ 2
unfolding choose_thread_count
two_threads = refl

halves_of : ℕ → List ℕ
halves_of m = replicate m 1 ++ replicate m 0

copies : ℕ → List Bytes
copies n = replicate n (6 ∷ [])

copies-Within : (m : ℕ) → Within 2 (halves_of m)
unfolding halves_of
copies-Within m =
    Within-replicate 2 m 1 (replicate m 0) (omega arith)
      (subst (Within 2) (append-nil (replicate m 0)) (Within-replicate 2 m 0 [] (omega arith) tt))

halves_moves : (m t : ℕ) → t < 2 → m ≤ moves t (halves_of m)
unfolding halves_of
halves_moves m zero h =
    omega (arith, moves-append 0 (replicate m 1) (replicate m 0), moves-replicate 0 m)
halves_moves m (suc zero) h =
    omega (arith, moves-append 1 (replicate m 1) (replicate m 0), moves-replicate 1 m)
halves_moves m (suc (suc t)) h = absurd (omega arith)

length-copies : (n : ℕ) → length (copies n) ≡ n
unfolding copies
length-copies n = length-replicate n (6 ∷ [])

fair : IsFair 2 client_cipher clone (halves_of 512) (λ t. refl) (copies 1024)
fair h =
    rw (length-copies 1024, two_threads)
      (copies-Within 512, λ t q. le_trans (short t q) (halves_moves 512 t q))
  where
    le_trans : {a b c : ℕ} → a ≤ b → b ≤ c → a ≤ c
    le_trans p q = omega arith

    short : (t : ℕ) → t < 2 → shard_length 1024 2 t ≤ 512
    short t q = unfold shard_length in ground arith

transform_elements-single_example :
    transform_elements 2 client_cipher clone
      (halves_of 512)
      (λ cipher x. cipher.encrypt x)
      (copies 1024)
    ≡ transform_single client_cipher.encrypt (copies 1024)
transform_elements-single_example =
    transform_elements-single 2 client_cipher clone (halves_of 512) (λ t. refl)
      (λ cipher x. cipher.encrypt x) (copies 1024) fair
