-- ===== src/Tests/Matches.antt =====
-- `PsiMatch` of private_set_intersection/cpp/psi_match.cpp at concrete inputs.
use open_mined_psi.Base.{
  length, Option, zero, suc, ◌<◌, ◌^◌, ◌≡◌, refl, Bytes, List, [], ◌∷◌, ◌++◌, some, map, arith,
  true,
}
use open_mined_psi.Base.Order.{lex}
use open_mined_psi.Status.{Error, Result, ok, err, done, invalid_argument, setup_incomplete}
use open_mined_psi.Match.Compare.{compare_elements, compare_elements-lex}
use open_mined_psi.Match.Reader.{new_reader, feed, OnEntry}
use open_mined_psi.Match.Reader.Parse.{parse, view}
use open_mined_psi.Match.Reader.Windows.{IsReading, Follows, feed-Follows}
use open_mined_psi.Match.Slots.{SetupStore, no_setup, write_slot, find_in_setup}
use open_mined_psi.Match.Slots.Holds.{Holds, no_setup-Holds, write_slot-Holds}
use open_mined_psi.Match.Slots.Find.{Finds, find_in_setup-Finds}
use open_mined_psi.Match.Slots.Add.{IsSorted, Holds-IsAscending}
use open_mined_psi.Match.Setup.{new_setup, read_setup}
use open_mined_psi.Match.Setup.Frame.{stages}
use open_mined_psi.Match.Setup.Stages.{stage_of, new_setup-IsFraming}
use open_mined_psi.Match.Setup.Windows.{read_setup-Follows}
use open_mined_psi.Match.Setup.Windows
use open_mined_psi.Match.Session.{
  Response, match_from, PsiMatch, k_setup, create, fail, seal_setup, no_response,
}
use open_mined_psi.Match.Session.Failure.{
  step, run_calls, step-sticky, call_seal, call_setup_bytes, call_finish, call_piece, MethodCall,
}
use open_mined_psi.Match.Session.Calls.{run_calls-total}
use open_mined_psi.Match.Session.Matching.{Matched, fresh, fresh-Matched, match_from-Matched}

abbrev pub ant : Bytes
ant = b'a' ∷ []

abbrev pub bee : Bytes
bee = b'b' ∷ b'e' ∷ []

abbrev pub two : List Bytes
two = ant ∷ bee ∷ []

abbrev one_slot : SetupStore
one_slot = write_slot no_setup ant

abbrev two_slots : SetupStore
two_slots = write_slot one_slot bee

one_slot-Holds : Holds one_slot (ant ∷ [])
one_slot-Holds = write_slot-Holds no_setup [] no_setup-Holds ant (omega arith)

two_slots-Holds : Holds two_slots two
two_slots-Holds = write_slot-Holds one_slot (ant ∷ []) one_slot-Holds bee (omega arith)

pub two-IsSorted : IsSorted two
unfolding lex
two-IsSorted zero (suc zero) p q = refl
two-IsSorted zero zero p q = absurd (omega arith)
two-IsSorted (suc i) (suc zero) p q = absurd (omega arith)
two-IsSorted (suc i) zero p q = absurd (omega arith)
two-IsSorted i (suc (suc j)) p q = absurd (omega arith)

small : two_slots.setup_count < 2 ^ 32
small = omega (arith, two_slots-Holds.count_is)

write_slot-Holds_example : Holds two_slots two
write_slot-Holds_example = write_slot-Holds one_slot (ant ∷ []) one_slot-Holds bee (omega arith)

find_in_setup-Finds_example : Finds two_slots bee (find_in_setup two_slots bee)
find_in_setup-Finds_example =
    find_in_setup-Finds two_slots bee (Holds-IsAscending two_slots two two_slots-Holds two-IsSorted)
      small

compare_elements-lex_example : compare_elements ant bee ≡ lex ant bee
compare_elements-lex_example = compare_elements-lex ant bee

collect : OnEntry (List Bytes)
collect e es = (done, es ++ e ∷ [])

new_reader-IsReading : IsReading new_reader
new_reader-IsReading = record { missing = λ h. cc; short = λ h. cc }

abbrev cut : Bytes
cut = 0x0A ∷ 1 ∷ b'a' ∷ 0x0A ∷ 2 ∷ b'b' ∷ []

feed-Follows_example :
    Follows collect (parse collect (view new_reader) cut []) (feed collect new_reader cut [])
feed-Follows_example = feed-Follows collect new_reader cut [] new_reader-IsReading

read_setup-Follows_example :
    Windows.Follows
      (stages (stage_of new_setup) (0x0A ∷ 3 ∷ 0x0A ∷ 1 ∷ b'a' ∷ []) new_setup.store)
      (read_setup new_setup (0x0A ∷ 3 ∷ 0x0A ∷ 1 ∷ b'a' ∷ []))
read_setup-Follows_example =
    read_setup-Follows new_setup (0x0A ∷ 3 ∷ 0x0A ∷ 1 ∷ b'a' ∷ []) new_setup-IsFraming

match_from-Matched_example :
    (r : Response) × (match_from true two_slots 0 (bee ∷ (b'n' ∷ []) ∷ bee ∷ []) (fresh 2) ≡ some r)
    × (r.decrypted_count ≡ 0)
    × Matched true two ([] ++ bee ∷ (b'n' ∷ []) ∷ bee ∷ []) r
match_from-Matched_example =
    match_from-Matched true two_slots two (bee ∷ (b'n' ∷ []) ∷ bee ∷ []) [] 0 (fresh 2)
      two_slots-Holds two-IsSorted (omega arith) refl (omega arith) (fresh-Matched true two)

abbrev too_early : Error
too_early = invalid_argument setup_incomplete

abbrev refused_match : PsiMatch
refused_match = record {
  reveal_intersection = true;
  phase = k_setup;
  failure = err too_early;
  setup = new_setup;
  response_reader = new_reader;
  response = no_response;
}

abbrev plain : Bytes → Result Bytes
plain x = ok x

refused_match-step : step plain call_seal (create true) ≡ some (some too_early, refused_match)
unfolding step seal_setup create fail
refused_match-step = refl

step-sticky_example :
    run_calls plain (call_setup_bytes ant ∷ call_finish ∷ []) refused_match
    ≡ some (map (λ _. some too_early) (call_setup_bytes ant ∷ call_finish ∷ []), refused_match)
step-sticky_example =
    step-sticky plain call_seal (create true) refused_match too_early refused_match-step
      (call_setup_bytes ant ∷ call_finish ∷ [])

-- A setup cut inside its entry, sealed, a response cut inside its entry, finished.
abbrev session : List MethodCall
session =
    call_setup_bytes (0x0A ∷ 3 ∷ 0x0A ∷ [])
    ∷ call_setup_bytes (1 ∷ b'a' ∷ [])
    ∷ call_seal
    ∷ call_piece (0x0A ∷ 1 ∷ [])
    ∷ call_piece (b'a' ∷ [])
    ∷ call_finish
    ∷ []

run_calls-total_example :
    (rs : List (Option Error)) × (m : PsiMatch) × (run_calls ok session (create true)
      ≡ some (rs, m))
    × (length rs ≡ length session)
run_calls-total_example = run_calls-total ok true session
