-- ===== src/Containers/Association/Found.antt =====
-- What `Raw::GetAssociationTable` of private_set_intersection/cpp/datastructure/raw.cpp returns.
use mathlib.Core.List.{Memᴰ}
use open_mined_psi.Base.{
  ℕ, zero, suc, ◌+◌, ◌∷◌, ◌<◌, ◌≡◌, ◌↔◌, inl, inr, refl, sym, subst, ◌∙◌, false, ltb, Bool-cases,
  Bytes, List, [], some, length, get_or, arith,
}
use open_mined_psi.Base.Order.{str_ltb}
use open_mined_psi.Base.Sort.{IsAscending}
use open_mined_psi.Base.Members.{mem-get_or}
use open_mined_psi.Containers.Raw.Sorted.{Orders}
use open_mined_psi.Containers.Raw.Cycle.{create-eq}
use open_mined_psi.Containers.Raw.Merge.{str_ltb_irrefl}
use open_mined_psi.Containers.Association.{Table, get_association_table}
use open_mined_psi.Containers.Association.Rows.{rows, IsApart, Matches}
use open_mined_psi.Containers.Association.Skips.{IsOrdered}
use open_mined_psi.Containers.Association.Pairs.{table_loop-Filled}

IsOrdered-of_ascending : (xs : List Bytes) → IsAscending str_ltb xs → IsOrdered xs
IsOrdered-of_ascending [] h i j a b = absurd (omega arith)
IsOrdered-of_ascending (x ∷ xs) h zero zero a b = str_ltb_irrefl x
IsOrdered-of_ascending (x ∷ xs) h zero (suc j) a b =
    h.0 (get_or xs j []) (mem-get_or xs j [] (omega arith))
IsOrdered-of_ascending (x ∷ xs) h (suc i) zero a b = absurd (omega arith)
IsOrdered-of_ascending (x ∷ xs) h (suc i) (suc j) a b =
    IsOrdered-of_ascending xs h.1 i j (omega arith) (omega arith)

IsOrdered-of_later :
    (xs : List Bytes)
    → ((i j : ℕ) → i < j → j < length xs → str_ltb (get_or xs j []) (get_or xs i []) ≡ false)
    → IsOrdered xs
IsOrdered-of_later xs h i j a b = elim (Bool-cases (ltb i j)) [
  | inl before ↦ h i j (ground (arith, before)) b
  | inr not_before ↦
      let e : i ≡ j = ground (arith, not_before) in rw e (str_ltb_irrefl (get_or xs j []))
]

-- For encrypted elements in ascending order and indexes of the decrypted ones that `std::sort` put in
-- order, the loops end, the two vectors have the same length, no row stands twice, and the rows are
-- exactly the pairs of an index of a decrypted element and an index of an encrypted one equal to it.
pub get_association_table-rows :
    (order : List ℕ) (encrypted decrypted : List Bytes)
    → Orders order decrypted
    → IsAscending str_ltb encrypted
    → (t : Table) × (get_association_table order encrypted decrypted ≡ some t)
      × (length t.decrypted_permutation ≡ length t.encrypted_permutation)
      × IsApart (rows t.decrypted_permutation t.encrypted_permutation)
      × ((a b : ℕ)
          → Memᴰ (a, b) (rows t.decrypted_permutation t.encrypted_permutation) ↔ (
              (a < length decrypted)
              × (b < length encrypted)
              × (get_or decrypted a [] ≡ get_or encrypted b [])))
unfolding get_association_table
get_association_table-rows order encrypted decrypted o ascending =
    let (ys, ran, size, value) = create-eq decrypted order o.permutes in
    let sorted : IsOrdered ys = IsOrdered-of_later ys (λ i j a b.
      rw (value i (omega arith), value j (omega arith)) (o.in_order i j a (omega arith))) in
    let start : Table = record { decrypted_permutation = []; encrypted_permutation = [] } in
    let (t, ended, filled) =
      table_loop-Filled encrypted ys order (IsOrdered-of_ascending encrypted ascending) sorted
        (λ i j a b e. o.permutes.once i j (omega arith) (omega arith) e)
        (length encrypted + length ys + 1) 0 0 start (omega arith)
        (record {
          sizes = refl;
          apart = tt;
          sound = λ a b m. elim m [ ];
          complete = λ p q found. inr (omega arith, omega arith);
        }) in
    (
      t,
      rw (ran, get_association_table) ended,
      filled.sizes,
      filled.apart,
      λ a b. (
        λ m.
            let (p, e, found, _) = filled.sound a b m in
            let inside = found.left_inside in
            (
              rw e (o.permutes.inside p (omega arith)),
              found.right_inside,
              rw e (sym (value p (omega arith)) ∙ found.equal),
            ),
        λ (h, k, e).
            let (p, q, at_p) = o.permutes.every a h in
            let found : Matches encrypted ys order p b = record {
              left_inside = omega arith;
              right_inside = k;
              equal = value p q ∙ rw at_p e;
            } in
            elim (filled.complete p b found) [
              | inl m ↦
                  subst (λ n. Memᴰ (n, b) (rows t.decrypted_permutation t.encrypted_permutation))
                    at_p m
              | inr (c, d) ↦ absurd (omega arith)
            ],
      ),
    )
