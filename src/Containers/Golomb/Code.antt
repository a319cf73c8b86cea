-- ===== src/Containers/Golomb/Code.antt =====
-- The code of a list of values that `golomb_compress` of
-- private_set_intersection/cpp/datastructure/golomb.cpp writes, as a number: the reference that both routines
-- are compared with.
use open_mined_psi.Base.{
  ℕ, ◌+◌, ◌-◌, ◌≡◌, ◌∙◌, subst, Bool, true, false, ◌||◌, Bool-cases, inl, inr, ltb, Bytes, List, [],
  ◌∷◌, arith,
}
use open_mined_psi.Base.Shift.{shl, shl-add, shl_sum, shl-zero, div-shr}
use open_mined_psi.Containers.Golomb.{write_delta, compress_from, compress_with}
use open_mined_psi.Containers.Golomb.Number.{num}
use open_mined_psi.Containers.Golomb.Write.{
  delta_code, delta_size, EndsAt, write_delta-EndsAt, empty-EndsAt,
}

-- The differences that are written: a value that does not rise is passed over, unless it is the first.
unfoldable pub deltas : ℕ → Bool → List ℕ → List ℕ
deltas prev start [] = []
deltas prev start (c ∷ cs) = elim (start || ltb prev c) [
  | false ↦ deltas prev start cs
  | true ↦ (c - prev) ∷ deltas c false cs
]

unfoldable pub code : ℕ → List ℕ → ℕ
code div [] = 0
code div (d ∷ ds) = delta_code div d + shl (delta_size div d) (code div ds)

unfoldable pub code_size : ℕ → List ℕ → ℕ
code_size div [] = 0
code_size div (d ∷ ds) = delta_size div d + code_size div ds

-- The bytes are those of a code.
pub record IsCode (div : ℕ) (bits : Bytes) (ds : List ℕ) : Type 0 where
  pub value : num bits ≡ code div ds
  pub ends : EndsAt bits (code_size div ds)

compress_from-code :
    (div : ℕ) (vals : List ℕ) (bits : Bytes) (res prev : ℕ) (start : Bool)
    → EndsAt bits res
    → (num (compress_from div vals bits res prev start)
        ≡ num bits + shl res (code div (deltas prev start vals)))
      × EndsAt
          (compress_from div vals bits res prev start)
          (res + code_size div (deltas prev start vals))
unfolding compress_from deltas code code_size
compress_from-code div [] bits res prev start h =
    (omega (arith, shl-zero res), subst (λ n. EndsAt bits n) (omega arith) h)
compress_from-code div (c ∷ cs) bits res prev start h = elim (Bool-cases (start || ltb prev c)) [
  | inr skipped ↦
      rw (skipped, compress_from, deltas) (compress_from-code div cs bits res prev start h)
  | inl taken ↦
      let d = c - prev in
      let (value, ends) = write_delta-EndsAt div d res bits h in
      let (value', ends') =
        compress_from-code div cs (write_delta div d res bits) (res + delta_size div d) c false
          ends in
      let out =
        compress_from div cs (write_delta div d res bits) (res + delta_size div d) c false in
      let tail = code div (deltas c false cs) in
      let moved = shl-add res (delta_size div d) tail in
      let parts = shl_sum res (delta_code div d) (shl (delta_size div d) tail) in
      rw (taken, compress_from, deltas, div-shr div d)
        (omega (arith, value, value', moved, parts), subst (λ n. EndsAt out n) (omega arith) ends')
]

-- The compressed bytes of values are the code of their differences.
pub compress_with-IsCode :
    (div : ℕ) (vals : List ℕ) → IsCode div (compress_with div vals).compressed (deltas 0 true vals)
unfolding compress_with
compress_with-IsCode div vals =
    let (value, ends) = compress_from-code div vals [] 0 0 true empty-EndsAt in
    record {
      value = value ∙ (unfold num in omega arith);
      ends = subst (λ n. EndsAt (compress_from div vals [] 0 0 true) n) (omega arith) ends;
    }
