-- ===== src/JavaScript/Windows.antt =====
-- `ForEachWindow` of private_set_intersection/javascript/cpp/client.cpp hands over all of its bytes, where the
-- array is short enough for its index.
use mathlib.Core.List.{flatten}
use open_mined_psi.Base.{
  ℕ, zero, suc, ◌+◌, ◌-◌, ◌%◌, ◌^◌, ◌<◌, ◌≤◌, ◌≡◌, ◌==◌, false, leb, min, refl, sym, ap, ◌∙◌, Bytes,
  List, [], ◌∷◌, ◌++◌, length, length-drop, take, drop, drop_all, take-append-drop, Option, none,
  some, Bool-cases, Option-cases, inl, inr, arith,
}
use open_mined_psi.Status.{ok, err, Status, done}
use open_mined_psi.JavaScript.Match.{window_bytes, window_loop, for_each_window}

drop-drop : (m n : ℕ) (xs : Bytes) → drop m (drop n xs) ≡ drop (n + m) xs
drop-drop m n [] =
    ap (drop m) (drop_all n [] (omega arith))
    ∙ drop_all m [] (omega arith)
    ∙ sym (drop_all (n + m) [] (omega arith))
drop-drop m zero (x ∷ xs) = ap (λ k. drop k (x ∷ xs)) (omega arith)
drop-drop m (suc n) (x ∷ xs) =
    let e : suc n + m ≡ suc (n + m) = omega arith in rw e (drop-drop m n xs)

module _ {ℓ} {S : Type ℓ} (consume : Bytes → S → Option (Status × S)) where
  -- The windows in order, up to the first refusal.
  unfoldable pub consume_all : List Bytes → S → Option (Status × S)
  consume_all [] s = some (done, s)
  consume_all (w ∷ ws) s = elim (consume w s) [
    | none ↦ none
    | some (err e, s') ↦ some (err e, s')
    | some (ok _, s') ↦ consume_all ws s'
  ]

  window_loop_lem :
      (bytes : Bytes) (window fuel at : ℕ)
      → 0 < window
      → length bytes + window ≤ 2 ^ 32
      → length bytes - at < fuel
      → (ws : List Bytes) × (flatten ws ≡ drop at bytes)
        × ((s : S) → window_loop consume bytes (length bytes) window fuel at s ≡ consume_all ws s)
  unfolding window_loop consume_all flatten
  window_loop_lem bytes window zero at h wide k = absurd (omega arith)
  window_loop_lem bytes window (suc fuel) at h wide k = elim (Bool-cases (leb (length bytes) at)) [
    | inl over ↦
        ([], sym (drop_all at bytes (ground (arith, over))), λ s. rw (over, window_loop) refl)
    | inr more ↦
        let inside : at < length bytes = ground (arith, more) in
        let next : (at + window) % 2 ^ 32 ≡ at + window = omega (arith, wide, inside) in
        let (ws, whole, same) =
          window_loop_lem bytes window fuel (at + window) h wide (omega arith) in
        let size = min window (length bytes - at) in
        let rest : drop size (drop at bytes) ≡ drop (at + window) bytes =
          elim (Bool-cases (leb window (length bytes - at))) [
            | inl fits ↦
                drop-drop size at bytes ∙ ap (λ n. drop (at + n) bytes) (ground (arith, fits))
            | inr short ↦
                drop_all size (drop at bytes)
                  (let e = length-drop at bytes in ground (arith, e, short))
                ∙ sym (drop_all (at + window) bytes (ground (arith, short)))
          ] in
        (
          take size (drop at bytes) ∷ ws,
          ap (λ r. take size (drop at bytes) ++ r) (whole ∙ sym rest)
              ∙ take-append-drop size (drop at bytes),
          λ s. elim (Option-cases (consume (take size (drop at bytes)) s)) [
            | inl gone ↦ rw (more, gone, window_loop, consume_all) refl
            | inr ((err e, s'), ran) ↦ rw (more, ran, window_loop, consume_all) refl
            | inr ((ok _, s'), ran) ↦
                rw (more, ran, window_loop, consume_all)
                  (ap (λ k. window_loop consume bytes (length bytes) window fuel k s') next
                    ∙ same s')
          ],
        )
  ]

  -- Where the array has at most 2^32 - 2^20 bytes, they go to `consume` in windows, in order and up to
  -- its first refusal; no bytes go as one empty window.
  pub for_each_window-consume_all :
      (bytes : Bytes)
      → length bytes + 2 ^ 20 ≤ 2 ^ 32
      → (ws : List Bytes) × (flatten ws ≡ bytes)
        × ((s : S) → for_each_window consume bytes s ≡ consume_all ws s)
  unfolding for_each_window consume_all flatten
  for_each_window-consume_all [] fits = (
    [] ∷ [],
    refl,
    λ s. elim (Option-cases (consume [] s)) [
      | inl gone ↦ rw (gone, consume_all) refl
      | inr ((err e, s'), ran) ↦ rw (ran, consume_all) refl
      | inr ((ok _, s'), ran) ↦ rw (ran, consume_all) refl
    ],
  )
  for_each_window-consume_all (b ∷ bytes) fits =
      let (ws, whole, same) =
        window_loop_lem (b ∷ bytes) (min (length (b ∷ bytes)) window_bytes) (length (b ∷ bytes) + 1)
          0 (omega arith) (omega (arith, fits)) (omega arith) in
      let kept : length (b ∷ bytes) % 2 ^ 32 ≡ length (b ∷ bytes) = omega (arith, fits) in
      let not_empty : (length (b ∷ bytes) == 0) ≡ false = ground arith in
      (ws, whole, λ s. rw (kept, not_empty, for_each_window) (same s))
