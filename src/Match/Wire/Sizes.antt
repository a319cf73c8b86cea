-- ===== src/Match/Wire/Sizes.antt =====
-- The varint of an encoded setup, read by the framing of `AddSetupBytes` of
-- private_set_intersection/cpp/psi_match.cpp.
use open_mined_psi.Base.{
  ℕ, zero, suc, ◌+◌, ◌*◌, ◌^◌, ◌%◌, ◌/◌, ◌≤◌, ◌<◌, ◌≡◌, refl, sym, ap, ◌∙◌, Bytes, ◌∷◌, ◌++◌, arith,
  ltb, ◌==◌, ◌&&◌, not, true, false, bit_or, Bool-cases, inl, inr, subst,
}
use open_mined_psi.Base.Bits.{zero-bit_or, bit_or_step}
use native.Mathlib.Nat.{pow-suc, mul_assoc}
use open_mined_psi.Status.{What, server_setup, ok}
use open_mined_psi.Match.Reader.{add_varint32_byte}
use open_mined_psi.Match.Reader.Parse.{at_tag}
use open_mined_psi.Match.Slots.{SetupStore}
use open_mined_psi.Match.Setup.Frame.{on, sizing, and_stage, body_left, stage_byte, stages}
use open_mined_psi.Match.Wire.{varint}

-- The bits of two numbers that do not overlap add up.
bit_or_add : (k v x : ℕ) → v < 2 ^ k → bit_or v (x * 2 ^ k) ≡ v + x * 2 ^ k
bit_or_add zero v x h =
    let none : v ≡ 0 = omega arith in rw none (zero-bit_or (x * 2 ^ 0) ∙ omega arith)
bit_or_add (suc k) v x h =
    let twice : x * 2 ^ suc k ≡ x * 2 ^ k * 2 = rw (pow-suc 2 k) (sym (mul_assoc x (2 ^ k) 2)) in
    let half : x * 2 ^ suc k / 2 ≡ x * 2 ^ k = omega (arith, twice) in
    bit_or_step v (x * 2 ^ suc k)
    ∙ rw half (omega (arith, twice, bit_or_add k (v / 2) x (omega (arith, pow-suc 2 k))))

place_fits : (k c : ℕ) → k ≤ 4 → c < 256 → (k ≡ 4 → c < 16) → c % 128 * 2 ^ (7 * k) < 2 ^ 32
place_fits zero c h b last = omega arith
place_fits (suc zero) c h b last = omega arith
place_fits (suc (suc zero)) c h b last = omega arith
place_fits (suc (suc (suc zero))) c h b last = omega arith
place_fits (suc (suc (suc (suc zero)))) c h b last = omega (arith, last refl)
place_fits (suc (suc (suc (suc (suc k))))) c h b last = absurd (omega arith)

-- A byte of a varint.
add_byte :
    (k v c : ℕ) (what : What)
    → k ≤ 4
    → v < 2 ^ (7 * k)
    → c < 256
    → (k ≡ 4 → c < 16)
    → add_varint32_byte c v k what
      ≡ ok (record {
        value = v + c % 128 * 2 ^ (7 * k);
        bytes_read = k + 1;
        complete = c / 128 % 2 == 0;
      })
unfolding add_varint32_byte
add_byte k v c what h below b last =
    let fine : (k == 4 && not (c / 16 % 16 == 0)) ≡ false = elim (Bool-cases (k == 4)) [
      | inl four ↦ let small = last (ground arith) in ground arith
      | inr other ↦ rw other
    ] in
    let fits : c % 128 * 2 ^ (7 * k) % 2 ^ 32 ≡ c % 128 * 2 ^ (7 * k) =
      omega (arith, place_fits k c h b last) in
    rw (fine, fits, bit_or_add (7 * k) v (c % 128) below)

-- What a byte of a varint leaves, where the number to read is `m` and `n` of it is to come.
place_step :
    (k v n m : ℕ)
    → k ≤ 3
    → v < 2 ^ (7 * k)
    → m ≡ v + n * 2 ^ (7 * k)
    → (v + n % 128 * 2 ^ (7 * k) < 2 ^ (7 * (k + 1)))
      × (m ≡ v + n % 128 * 2 ^ (7 * k) + n / 128 * 2 ^ (7 * (k + 1)))
place_step zero v n m h below e = (omega arith, omega arith)
place_step (suc zero) v n m h below e = (omega arith, omega arith)
place_step (suc (suc zero)) v n m h below e = (omega arith, omega arith)
place_step (suc (suc (suc zero))) v n m h below e = (omega arith, omega arith)
place_step (suc (suc (suc (suc k)))) v n m h below e = absurd (omega arith)

last_small : (k v n m : ℕ) → k ≡ 4 → m < 2 ^ 32 → m ≡ v + n * 2 ^ (7 * k) → n < 16
last_small k v n m four h e = omega (arith, subst (λ k. m ≡ v + n * 2 ^ (7 * k)) four e)

last_byte :
    (k v n m : ℕ) (rest : Bytes) (s : SetupStore)
    → k ≤ 4
    → v < 2 ^ (7 * k)
    → n < 128
    → (k ≡ 4 → n < 16)
    → m ≡ v + n * 2 ^ (7 * k)
    → stages (sizing v k) (n ∷ rest) s
      ≡ and_stage (body_left m at_tag s) (λ g' s'. stages g' rest s')
unfolding stages stage_byte
last_byte k v n m rest s h below small last e =
    let end : (n / 128 % 2 == 0) ≡ true = ground arith in
    let all : n % 128 ≡ n = omega arith in
    let total = sym e in
    let byte : stage_byte (sizing v k) n s ≡ body_left m at_tag s =
      rw (add_byte k v n server_setup h below (omega arith) last, end, all, total, stage_byte) in
    ap (λ g. and_stage g (λ g' s'. stages g' rest s')) byte

more_bytes :
    (k v n : ℕ) (rest : Bytes) (s : SetupStore)
    → k ≤ 3
    → v < 2 ^ (7 * k)
    → stages (sizing v k) ((n % 128 + 128) ∷ rest) s
      ≡ stages (sizing (v + n % 128 * 2 ^ (7 * k)) (k + 1)) rest s
unfolding stages stage_byte
more_bytes k v n rest s h below =
    let more : ((n % 128 + 128) / 128 % 2 == 0) ≡ false = ground arith in
    let low : (n % 128 + 128) % 128 ≡ n % 128 = omega arith in
    let byte : stage_byte (sizing v k) (n % 128 + 128) s
        ≡ on s (sizing (v + n % 128 * 2 ^ (7 * k)) (k + 1)) =
      rw (
        add_byte k v (n % 128 + 128) server_setup (omega arith) below (omega arith)
            (λ four. absurd (omega arith)),
        more,
        low,
        stage_byte,
      ) in
    ap (λ g. and_stage g (λ g' s'. stages g' rest s')) byte

-- The framing reads the varint of `m` as `m` and goes on behind it.
pub stages-varint :
    (j k v n m : ℕ) (rest : Bytes) (s : SetupStore)
    → k + j ≡ 4
    → v < 2 ^ (7 * k)
    → m < 2 ^ 32
    → m ≡ v + n * 2 ^ (7 * k)
    → stages (sizing v k) (varint j n ++ rest) s
      ≡ and_stage (body_left m at_tag s) (λ g' s'. stages g' rest s')
unfolding varint stages stage_byte
stages-varint zero k v n m rest s depth below bound e =
    let small = last_small k v n m (omega arith) bound e in
    last_byte k v n m rest s (omega arith) below (omega arith) (λ q. small) e
stages-varint (suc j) k v n m rest s depth below bound e = elim (Bool-cases (ltb n 128)) [
  | inl short ↦ rw short (
      last_byte k v n m rest s (omega arith) below (ground arith)
        (λ q. last_small k v n m q bound e) e)
  | inr long ↦
      let (less, left) = place_step k v n m (omega arith) below e in
      rw long (
        more_bytes k v n (varint j (n / 128) ++ rest) s (omega arith) below
        ∙ stages-varint j (k + 1) (v + n % 128 * 2 ^ (7 * k)) (n / 128) m rest s (omega arith) less
            bound left)
]
