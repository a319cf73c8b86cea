-- ===== src/Match/Wire/Setup.antt =====
-- An encoded setup, read whole by the framing of `AddSetupBytes` of
-- private_set_intersection/cpp/psi_match.cpp, fills the slots with its elements.
use open_mined_psi.Base.{
  ℕ, zero, suc, ◌+◌, ◌-◌, ◌*◌, ◌^◌, ◌≤◌, ◌<◌, ◌≡◌, refl, sym, ap, ◌∙◌, subst, Bytes, List, [], ◌∷◌,
  ◌++◌, length, push_back, take_all, drop_all, append_assoc, append-nil, arith, length-append,
  get_or, get_or-append_left, get_or-append_length,
}
use open_mined_psi.Status.{done}
use open_mined_psi.Match.Reader.{max_element_bytes}
use open_mined_psi.Match.Reader.Parse.{at_tag, Parsed, parse}
use open_mined_psi.Match.Reader.Keeps.{IsShort}
use open_mined_psi.Match.Slots.{SetupStore, no_setup, add_setup_element, write_slot, max_elements}
use open_mined_psi.Match.Slots.Holds.{Holds, no_setup-Holds, write_slot-Holds}
use open_mined_psi.Match.Slots.Add.{IsSorted, Accepts, add_setup_element-Accepts}
use open_mined_psi.Match.Setup.Frame.{
  Staged, before, behind, on, and_stage, body_left, stage_byte, stages, stages_body,
}
use open_mined_psi.Match.Wire.{entries, setup_message, AllShort, IsPrefix}
use open_mined_psi.Match.Wire.Entries.{parse-entries}
use open_mined_psi.Match.Wire.Lockstep.{parse-lockstep}
use open_mined_psi.Match.Wire.Sizes.{stages-varint}

-- Each entry has two bytes at least.
pub length-entries : (es : List Bytes) → 2 * length es ≤ length (entries es)
unfolding entries
length-entries [] = omega arith
length-entries (e ∷ es) = omega (arith, length-entries es, length-append e (entries es))

-- The element after a prefix of an ascending list comes after the prefix.
prefix-Accepts :
    (es t : List Bytes) (e : Bytes)
    → IsSorted es
    → length es ≤ max_elements
    → IsPrefix (push_back t e) es
    → Accepts t e
prefix-Accepts es t e sorted bound (rest, whole) =
    let parts : t ++ e ∷ rest ≡ es = sym (append_assoc t (e ∷ []) rest) ∙ whole in
    let size : length es ≡ length t + suc (length rest) =
      sym (ap length parts) ∙ length-append t (e ∷ rest) in
    (
      omega (arith, size),
      λ some_before.
          let first : get_or es (length t - 1) [] ≡ get_or t (length t - 1) [] =
            subst (λ l. get_or l (length t - 1) [] ≡ get_or t (length t - 1) []) parts
              (get_or-append_left t (e ∷ rest) (length t - 1) [] (omega arith)) in
          let second : get_or es (length t) [] ≡ e =
            subst (λ l. get_or l (length t) [] ≡ e) parts (get_or-append_length t rest e []) in
          rw (first, second) at
            (sorted (length t - 1) (length t) (omega arith) (omega (arith, size))),
    )

-- A body whose entries parse leaves the framing behind it.
body_whole :
    (n : ℕ) (bytes : Bytes) (s : SetupStore)
    → n ≡ length bytes
    → parse add_setup_element at_tag bytes no_setup
      ≡ record { place = at_tag; owner = s; status = done }
    → and_stage (body_left n at_tag no_setup) (λ g' s'. stages g' bytes s') ≡ on s behind
unfolding body_left stages parse
body_whole zero [] s size run = ap {B = Staged} (λ (p : Parsed SetupStore). on p.owner behind) run
body_whole zero (c ∷ cs) s size run = absurd (omega (arith, size))
body_whole (suc n) [] s size run = absurd (omega (arith, size))
body_whole (suc n) (c ∷ cs) s size run =
    let all =
      stages_body (c ∷ cs) (suc n) (suc n) at_tag no_setup (omega arith) (omega (arith, size)) in
    let none_left : suc n - suc n ≡ 0 = omega arith in
    all
    ∙ rw (none_left, take_all n cs (omega (arith, size)), drop_all n cs (omega (arith, size)), run)

module _ (es : List Bytes) (sorted : IsSorted es) (short : AllShort es)
    (bound : length es ≤ max_elements) where
  takes_next :
      (t : List Bytes) (e : Bytes) (s : SetupStore)
      → length e ≤ max_element_bytes
      → IsPrefix (push_back t e) es
      → Holds s t
      → (s' : SetupStore) × (add_setup_element e s ≡ (done, s')) × Holds s' (push_back t e)
  takes_next t e s fits prefix h = (
    write_slot s e,
    add_setup_element-Accepts s t e h (prefix-Accepts es t e sorted bound prefix),
    write_slot-Holds s t h e fits,
  )

  -- The entries of the setup, parsed, are in the slots.
  pub parse_setup :
      (s : SetupStore) × (parse add_setup_element at_tag (entries es) no_setup
        ≡ record { place = at_tag; owner = s; status = done })
      × Holds s es
  unfolding IsShort
  parse_setup =
      parse-lockstep add_setup_element es (λ t s. Holds s t) takes_next (entries es) at_tag at_tag
        [] es no_setup tt (parse-entries es [] short) ([], append-nil es) no_setup-Holds

  -- The whole message leaves the framing behind the `raw` field.
  pub stages-setup_message :
      length (entries es) < 2 ^ 32
      → (s : SetupStore) × (stages before (setup_message es) no_setup ≡ on s behind) × Holds s es
  unfolding setup_message stages stage_byte
  stages-setup_message fits =
      let (s, run, holds) = parse_setup in
      (
        s,
        stages-varint 4 0 0 (length (entries es)) (length (entries es)) (entries es) no_setup
              (omega arith) (omega arith) fits (omega arith)
            ∙ body_whole (length (entries es)) (entries es) s refl run,
        holds,
      )
