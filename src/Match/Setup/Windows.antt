-- ===== src/Match/Setup/Windows.antt =====
-- The loop of `AddSetupBytes` of private_set_intersection/cpp/psi_match.cpp against the reading of a
-- setup one byte at a time.
use open_mined_psi.Base.{ℕ, zero, suc, ◌≤◌, ◌≡◌, refl, Bytes, [], ◌∷◌, length, arith, Option, some}
use open_mined_psi.Status.{Result, ok, err, Status, done}
use open_mined_psi.Match.Setup.{
  SetupFrame, k_tag, k_length, k_body, k_done, Setup, Round, go, stop, starved, setup_round,
  setup_loop, read_setup,
}
use open_mined_psi.Match.Setup.Frame.{Stage, Staged, stages, stage_byte}
use open_mined_psi.Match.Setup.Stages.{stage_of, IsFraming, Agrees}
use open_mined_psi.Match.Setup.Lengths.{read_raw_tag-Agrees, read_raw_length-Agrees}
use open_mined_psi.Match.Setup.Rounds.{read_raw_body-Agrees}

setup_round-Agrees :
    (frame : SetupFrame) (m : Setup) (c : ℕ) (rest : Bytes)
    → m.setup_frame ≡ frame
    → IsFraming m
    → Agrees m (c ∷ rest) (setup_round frame m c rest)
unfolding setup_round
setup_round-Agrees k_tag m c rest e v = read_raw_tag-Agrees m c rest e v
setup_round-Agrees k_length m c rest e v = read_raw_length-Agrees m c rest e v
setup_round-Agrees k_body m c rest e v = read_raw_body-Agrees m (c ∷ rest) e v (omega arith)
setup_round-Agrees k_done m c rest e v = unfold stages stage_byte stage_of in ground arith

-- The status of a staged reading.
abbrev pub status_of : Result Stage → Status
status_of (ok _) = done
status_of (err e) = err e

-- What the loop returned is what the stages make of the bytes, and unless it was a refusal the
-- fields stand for the stage reached and are in order.
pub record Follows (p : Staged) (o : Option (Status × Setup)) : Type 0 where
  pub after : Setup
  pub ran : o ≡ some (status_of p.stage, after)
  pub slots : p.slots ≡ after.store
  pub reached : (g : Stage) → p.stage ≡ ok g → (g ≡ stage_of after) × IsFraming after

setup_loop-Follows :
    (fuel : ℕ) (m : Setup) (bytes : Bytes)
    → IsFraming m
    → length bytes ≤ fuel
    → Follows (stages (stage_of m) bytes m.store) (setup_loop fuel m bytes)
unfolding setup_loop
setup_loop-Follows fuel m [] v h =
    unfold stages in record { after = m; ran = refl; slots = refl; reached = λ g e. (cc, v) }
setup_loop-Follows zero m (c ∷ rest) v h = absurd (omega arith)
setup_loop-Follows (suc fuel) m (c ∷ rest) v h =
    next (setup_round m.setup_frame m c rest) refl
      (setup_round-Agrees m.setup_frame m c rest refl v)
      (λ m' rest' v' h'. setup_loop-Follows fuel m' rest' v' h')
  where
    next :
        (x : Round)
        → setup_round m.setup_frame m c rest ≡ x
        → Agrees m (c ∷ rest) x
        → ((m' : Setup) (rest' : Bytes)
            → IsFraming m'
            → length rest' ≤ fuel
            → Follows (stages (stage_of m') rest' m'.store) (setup_loop fuel m' rest'))
        → Follows (stages (stage_of m) (c ∷ rest) m.store) (setup_loop (suc fuel) m (c ∷ rest))
    next (go m' rest') e (v', less, same) ih =
        let f = ih m' rest' v' (omega arith) in
        rw same (record {
          after = f.after;
          ran = rw (e, setup_loop) f.ran;
          slots = f.slots;
          reached = f.reached;
        })
    next (stop m' x) e same ih =
        rw same (record { after = m'; ran = rw (e, setup_loop); slots = refl; reached = λ g q. cc })
    next starved e bad ih = absurd bad

-- The loop ends on every window, and what it returns is what its bytes mean one at a time.
pub read_setup-Follows :
    (m : Setup) (bytes : Bytes)
    → IsFraming m
    → Follows (stages (stage_of m) bytes m.store) (read_setup m bytes)
unfolding read_setup
read_setup-Follows m bytes v = setup_loop-Follows (length bytes) m bytes v (omega arith)
