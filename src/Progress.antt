-- ===== src/Progress.antt =====
-- `ProgressCounter` and `ResetProgress` of private_set_intersection/cpp/progress.h. The slot is the bit
-- pattern of its `int32_t`, absent for a null pointer; an atomic addition wraps at 32 bits.
use open_mined_psi.Base.{
  Bool-cases, inl, inr, false, ℕ, zero, suc, ◌+◌, ◌%◌, ◌^◌, ◌≤◌, ◌<◌, ◌≡◌, refl, ◌∙◌, ap, Option,
  none, some, arith, leb, ◌==◌, if◌then◌else◌,
}

abbrev pub batch_size : ℕ
batch_size = 256

pub record ProgressCounter : Type 0 where
  pub slot : Option ℕ
  pub pending : ℕ

unfoldable pub progress_counter : Option ℕ → ProgressCounter
progress_counter slot = record { slot = slot; pending = 0 }

unfoldable pub flush : ProgressCounter → ProgressCounter
flush c = elim c.slot [
  | none ↦ c
  | some v ↦
      if c.pending == 0 then c else record { slot = some ((v + c.pending) % 2 ^ 32); pending = 0 }
]

unfoldable pub increment : ProgressCounter → ProgressCounter
increment c = elim c.slot [
  | none ↦ c
  | some v ↦
      let c' = record c { pending = c.pending + 1 } in
      if leb batch_size c'.pending then flush c' else c'
]

unfoldable pub reset_progress : Option ℕ → Option ℕ
reset_progress none = none
reset_progress (some v) = some 0

-- `n` elements processed, then the destructor.
pub increments : ℕ → ProgressCounter → ProgressCounter
increments zero c = c
increments (suc n) c = increments n (increment c)

abbrev counter_at : ℕ → ℕ → ProgressCounter
counter_at v p = record { slot = some v; pending = p }

-- After any number of elements the published and the pending count make up the total, and less than
-- a batch is pending.
increments_at :
    (n v p : ℕ)
    → v < 2 ^ 32
    → p < batch_size
    → (w q : ℕ) × (increments n (counter_at v p) ≡ counter_at w q)
      × ((w + q) % 2 ^ 32 ≡ (v + p + n) % 2 ^ 32)
      × (v + p + n < 2 ^ 32 → w + q ≡ v + p + n)
      × (w < 2 ^ 32)
      × (q < batch_size)
unfolding increments increment flush
increments_at zero v p b h = (v, p, refl, omega arith, λ _. omega arith, b, h)
increments_at (suc n) v p b h = elim (Bool-cases (leb batch_size (p + 1))) [
  | inl full ↦
      let (w, q, run, total, exact, bound, lag) =
        increments_at n ((v + (p + 1)) % 2 ^ 32) 0 (omega arith) (omega arith) in
      let some_pending : (p + 1 == 0) ≡ false = ground arith in
      (w, q, rw (full, some_pending) run, omega arith, λ f. omega arith, bound, lag)
  | inr room ↦
      let (w, q, run, total, exact, bound, lag) = increments_at n v (p + 1) b (ground arith) in
      (w, q, rw room run, omega arith, λ f. omega arith, bound, lag)
]

flush_at : (w q : ℕ) → w < 2 ^ 32 → (flush (counter_at w q)).slot ≡ some ((w + q) % 2 ^ 32)
unfolding flush
flush_at w q h = elim (Bool-cases (q == 0)) [
  | inl empty ↦ rw empty (ap some (ground arith))
  | inr more ↦ rw more
]

-- A counter over a slot with the value `v`, told of `n` elements and then destroyed, leaves `v + n` in
-- the slot, modulo 2^32.
pub flush-increments :
    (n v : ℕ)
    → v < 2 ^ 32
    → (flush (increments n (progress_counter (some v)))).slot ≡ some ((v + n) % 2 ^ 32)
unfolding progress_counter
flush-increments n v b =
    let (w, q, run, total, exact, bound, lag) = increments_at n v 0 b (omega arith) in
    ap (λ c. (flush c).slot) run ∙ flush_at w q bound ∙ ap some (omega arith)

-- What a reader of the slot sees is behind the elements processed by less than a batch, and never
-- ahead, as long as the count fits the slot.
pub slot_lag :
    (n v : ℕ)
    → v + n < 2 ^ 32
    → (w : ℕ) × ((increments n (progress_counter (some v))).slot ≡ some w)
      × (w ≤ v + n)
      × (v + n < w + batch_size)
unfolding progress_counter
slot_lag n v fits =
    let (w, q, run, total, exact, bound, lag) = increments_at n v 0 (omega arith) (omega arith) in
    (w, ap (λ (c : ProgressCounter). c.slot) run, omega arith, omega arith)

-- Without a slot nothing is kept.
pub increments_null : (n : ℕ) → increments n (progress_counter none) ≡ progress_counter none
unfolding increments increment progress_counter
increments_null zero = refl
increments_null (suc n) = increments_null n
