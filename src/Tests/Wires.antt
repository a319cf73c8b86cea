-- ===== src/Tests/Wires.antt =====
-- A whole use of `PsiMatch` of private_set_intersection/cpp/psi_match.cpp at concrete windows.
use open_mined_psi.Base.{
  ◌<◌, ◌^◌, ◌≡◌, refl, Bytes, List, [], ◌∷◌, ◌++◌, map, some, none, length, arith, true, false,
}
use mathlib.Core.List.{flatten}
use mathlib.Core.List.Memᴰ.{head, tail}
use open_mined_psi.Status.{Result, ok}
use open_mined_psi.Match.Session.{PsiMatch, PsiMatchResult, create, finish, decrypt_batch}
use open_mined_psi.Match.Session.Failure.{call_setup_bytes, call_seal, call_piece, run_calls}
use open_mined_psi.Base.Order.{lex}
use open_mined_psi.Match.Session.Tally.{sum_below}
use open_mined_psi.Match.Session.Matching.{occurs}
use open_mined_psi.Match.Wire.{entries, setup_message, varint, AllShort}
use open_mined_psi.Match.Wire.Filling.{no_refusals}
use open_mined_psi.Match.Wire.Agreement.{finish-intersect}
use open_mined_psi.Containers.Raw.{intersect}
use open_mined_psi.Match.Wire.Whole.{expected, finish-expected}
use open_mined_psi.Tests.Matches.{bee, two, two-IsSorted}

abbrev pub plain : Bytes → Result Bytes
plain x = ok x

abbrev pub answers : List Bytes
answers = bee ∷ bee ∷ []

abbrev setup_cuts : List Bytes
setup_cuts = (0x0A ∷ 7 ∷ 0x0A ∷ []) ∷ (1 ∷ b'a' ∷ 0x0A ∷ []) ∷ [] ∷ (2 ∷ b'b' ∷ b'e' ∷ []) ∷ []

abbrev answer_cuts : List Bytes
answer_cuts = (0x0A ∷ []) ∷ (2 ∷ b'b' ∷ b'e' ∷ 0x0A ∷ 2 ∷ b'b' ∷ []) ∷ (b'e' ∷ []) ∷ []

pub two-AllShort : AllShort two
two-AllShort e (head same) = rw same (omega arith)
two-AllShort e (tail (head same)) = rw same (omega arith)
two-AllShort e (tail (tail none_left)) = elim none_left [ ]

pub answers-AllShort : AllShort answers
answers-AllShort e (head same) = rw same (omega arith)
answers-AllShort e (tail (head same)) = rw same (omega arith)
answers-AllShort e (tail (tail none_left)) = elim none_left [ ]

setup_cuts-message : flatten setup_cuts ≡ setup_message two
unfolding flatten setup_message varint entries
setup_cuts-message = refl

answer_cuts-entries : flatten answer_cuts ≡ entries answers
unfolding flatten entries
answer_cuts-entries = refl

pub two_fit : length (entries two) < 2 ^ 32
unfolding entries
two_fit = omega arith

pub all_plain : decrypt_batch plain answers ≡ ok answers
unfolding decrypt_batch
all_plain = refl

-- The second of the two setup elements is answered twice.
expected_here : (expected true two answers).intersection_size ≡ 1
unfolding expected sum_below occurs lex
expected_here = refl

finish-expected_example :
    (m m' : PsiMatch) × (run_calls plain
        (map call_setup_bytes setup_cuts ++ call_seal ∷ map call_piece answer_cuts)
        (create true)
      ≡ some (no_refusals setup_cuts ++ none ∷ no_refusals answer_cuts, m))
    × (finish m ≡ some (ok (expected true two answers), m'))
finish-expected_example =
    finish-expected plain true two answers answers two-IsSorted two-AllShort two_fit
      answers-AllShort (omega arith) all_plain setup_cuts answer_cuts setup_cuts-message
      answer_cuts-entries

finish-intersect_example :
    (m m' : PsiMatch) × (result : PsiMatchResult) × (run_calls plain
        (map call_setup_bytes setup_cuts ++ call_seal ∷ map call_piece answer_cuts)
        (create false)
      ≡ some (no_refusals setup_cuts ++ none ∷ no_refusals answer_cuts, m))
    × (finish m ≡ some (ok result, m'))
    × (result.intersection_size ≡ length (intersect two answers))
finish-intersect_example =
    finish-intersect plain false two answers answers two-IsSorted two-AllShort two_fit
      answers-AllShort (omega arith) all_plain setup_cuts answer_cuts setup_cuts-message
      answer_cuts-entries
