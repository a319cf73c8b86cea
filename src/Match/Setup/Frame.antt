-- ===== src/Match/Setup/Frame.antt =====
-- What the bytes of a serialized setup mean, one at a time: the specification that the loop of
-- `AddSetupBytes` of private_set_intersection/cpp/psi_match.cpp is compared with.
use open_mined_psi.Base.{
  ℕ, zero, suc, ◌-◌, ◌≤◌, ◌<◌, ◌≡◌, refl, sym, min, leb, take_all, drop_all, Bytes, [], ◌∷◌, ◌++◌,
  length, take, drop, ◌==◌, if◌then◌else◌, arith, Bool-cases, inl, inr, ◌∙◌,
}
use open_mined_psi.Status.{
  server_setup, not_single_raw, element_past_end, bytes_after_raw, invalid_argument, Result, ok,
  err, Result-cases,
}
use open_mined_psi.Match.Reader.{field1_length_delimited, add_varint32_byte}
use open_mined_psi.Match.Reader.Parse.{Place, at_tag, at_length, at_body, Parsed, parse_byte, parse}
use open_mined_psi.Match.Slots.{SetupStore, add_setup_element}

-- Where the setup stands: before the `raw` field, in its length, in its body with so many bytes to
-- come, or behind it.
pub data Stage : Type 0 where
  before : Stage
  sizing : ℕ → ℕ → Stage
  inside : ℕ → Place → Stage
  behind : Stage

-- A stage or a refusal, and the slots.
pub record Staged : Type 0 where
  pub stage : Result Stage
  pub slots : SetupStore

abbrev pub on : SetupStore → Stage → Staged
on s g = record { stage = ok g; slots = s }

abbrev pub and_stage : Staged → (Stage → SetupStore → Staged) → Staged
and_stage p k = elim p.stage [ ok g ↦ k g p.slots | err _ ↦ p ]

-- With `k` bytes of the body to come.
unfoldable pub body_left : ℕ → Place → SetupStore → Staged
body_left (suc k) a s = on s (inside (suc k) a)
body_left zero at_tag s = on s behind
body_left zero (at_length v n) s = record {
  stage = err (invalid_argument element_past_end);
  slots = s;
}
body_left zero (at_body v b) s = record {
  stage = err (invalid_argument element_past_end);
  slots = s;
}

-- The entries parsed so far, with `k` bytes to come.
abbrev pub entries_read : ℕ → Parsed SetupStore → Staged
entries_read k p = elim p.status [
  | ok _ ↦ body_left k p.place p.owner
  | err e ↦ record { stage = err e; slots = p.owner }
]

unfoldable pub stage_byte : Stage → ℕ → SetupStore → Staged
stage_byte before c s =
    if c == field1_length_delimited
    then on s (sizing 0 0)
    else record { stage = err (invalid_argument not_single_raw); slots = s }
stage_byte (sizing v n) c s = elim (add_varint32_byte c v n server_setup) [
  | err e ↦ record { stage = err e; slots = s }
  | ok w ↦ if w.complete then body_left w.value at_tag s else on s (sizing w.value w.bytes_read)
]
stage_byte (inside k a) c s = entries_read (k - 1) (parse_byte add_setup_element a c s)
stage_byte behind c s = record { stage = err (invalid_argument bytes_after_raw); slots = s }

unfoldable pub stages : Stage → Bytes → SetupStore → Staged
stages g [] s = on s g
stages g (c ∷ cs) s = and_stage (stage_byte g c s) (λ g' s'. stages g' cs s')

-- Two windows are the first, then the second unless the first was refused.
pub stages-append :
    (g : Stage) (xs ys : Bytes) (s : SetupStore)
    → stages g (xs ++ ys) s ≡ and_stage (stages g xs s) (λ g' s'. stages g' ys s')
unfolding stages
stages-append g [] ys s = refl
stages-append g (c ∷ cs) ys s = elim (Result-cases (stage_byte g c s).stage) [
  | inl (g', h) ↦ rw h (stages-append g' cs ys (stage_byte g c s).slots)
  | inr (e, h) ↦ rw h
]

-- A byte of the body with more to come, and the last one.
stage_byte_more :
    (k : ℕ) (a : Place) (c : ℕ) (s : SetupStore)
    → stage_byte (inside (suc (suc k)) a) c s
      ≡ entries_read (suc k) (parse_byte add_setup_element a c s)
unfolding stage_byte
stage_byte_more k a c s = let e : suc (suc k) - 1 ≡ suc k = omega arith in rw e

stage_byte_last :
    (a : Place) (c : ℕ) (s : SetupStore)
    → stage_byte (inside 1 a) c s ≡ entries_read 0 (parse_byte add_setup_element a c s)
unfolding stage_byte
stage_byte_last a c s = refl

-- A window that ends before the body does.
pub stages_part :
    (xs : Bytes) (k : ℕ) (a : Place) (s : SetupStore)
    → length xs < k
    → stages (inside k a) xs s ≡ entries_read (k - length xs) (parse add_setup_element a xs s)
unfolding stages parse body_left
stages_part [] zero a s h = elim h [ ]
stages_part [] (suc k) a s h = let e : suc k - 0 ≡ suc k = omega arith in rw e
stages_part (c ∷ cs) zero a s h = elim h [ ]
stages_part (c ∷ cs) (suc zero) a s h = absurd (omega arith)
stages_part (c ∷ cs) (suc (suc k)) a s h =
    let p = parse_byte add_setup_element a c s in
    let e : suc (suc k) - suc (length cs) ≡ suc k - length cs = omega arith in
    rw (stage_byte_more k a c s, e)
      (elim (Result-cases p.status) [
        | inl (_, fine) ↦ rw fine (stages_part cs (suc k) p.place p.owner (omega arith))
        | inr (x, bad) ↦ rw bad
      ])

-- A window that holds the rest of the body.
pub stages_whole :
    (xs : Bytes) (k : ℕ) (a : Place) (s : SetupStore)
    → suc k ≤ length xs
    → stages (inside (suc k) a) xs s
      ≡ and_stage
          (entries_read 0 (parse add_setup_element a (take (suc k) xs) s))
          (λ g' s'. stages g' (drop (suc k) xs) s')
unfolding stages parse body_left
stages_whole [] k a s h = elim h [ ]
stages_whole (c ∷ cs) zero a s h =
    let p = parse_byte add_setup_element a c s in
    rw (stage_byte_last a c s)
      (elim (Result-cases p.status) [ inl (_, fine) ↦ rw fine | inr (x, bad) ↦ rw bad ])
stages_whole (c ∷ cs) (suc k) a s h =
    let p = parse_byte add_setup_element a c s in
    rw (stage_byte_more k a c s) (elim (Result-cases p.status) [
      | inl (_, fine) ↦ rw fine (stages_whole cs k p.place p.owner (omega arith))
      | inr (x, bad) ↦ rw bad
    ])

and_stage_nil : (p : Staged) → and_stage p (λ g' s'. stages g' [] s') ≡ p
unfolding stages
and_stage_nil p = elim (Result-cases p.stage) [
  | inl (g, h) ↦ ground arith
  | inr (e, h) ↦ ground arith
]

-- As many bytes of a window as the body still wants, then the rest.
pub stages_body :
    (xs : Bytes) (k t : ℕ) (a : Place) (s : SetupStore)
    → 0 < k
    → t ≡ min k (length xs)
    → stages (inside k a) xs s
      ≡ and_stage
          (entries_read (k - t) (parse add_setup_element a (take t xs) s))
          (λ g' s'. stages g' (drop t xs) s')
stages_body xs zero t a s pos e = elim pos [ ]
stages_body xs (suc k) t a s pos e = elim (Bool-cases (leb (suc k) (length xs))) [
  | inl fits ↦
      let all : t ≡ suc k = ground arith in
      let none_left : suc k - suc k ≡ 0 = omega arith in
      rw (all, none_left) (stages_whole xs k a s (ground arith))
  | inr over ↦
      let part : length xs < suc k = ground arith in
      let all : t ≡ length xs = ground arith in
      rw (all, take_all (length xs) xs (omega arith), drop_all (length xs) xs (omega arith))
        (stages_part xs (suc k) a s part
          ∙ sym (and_stage_nil (entries_read (suc k - length xs) (parse add_setup_element a xs s))))
]
