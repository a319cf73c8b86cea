-- ===== src/Match/Session.antt =====
-- The class `PsiMatch` of private_set_intersection/cpp/psi_match.{h,cpp}: its phases, its sticky
-- failure, and the matching of the response. The cipher's `Decrypt` is a parameter; the build without
-- threads is modelled. A method returns its status beside the new state, and `none` where a loop ran
-- out of fuel. A progress slot is not part of the state.
pub mod Tally
pub mod Position
pub mod Matching
pub mod Batch
pub mod Invariant
pub mod Pieces
pub mod Calls
pub mod Failure
use open_mined_psi.Base.{
  ℕ, zero, suc, ◌+◌, ◌*◌, ◌/◌, ◌%◌, ◌^◌, Bool, true, false, not, Bytes, List, [], ◌∷◌, ◌++◌, Option,
  none, some, length, get_or, set, push_back, replicate, leb, ◌==◌, if◌then◌else◌,
}
use open_mined_psi.Base.Bits.{set_bit, popcount}
use open_mined_psi.Status.{
  add_after_seal, seal_twice, setup_incomplete, match_before_seal, match_after_finish,
  too_many_response_elements, finish_before_seal, finish_twice, response_inside_element, Error,
  invalid_argument, failed_precondition, Result, ok, err, Status, done,
}
use open_mined_psi.Match.Reader.{EntryReader, new_reader, at_entry_boundary, feed}
use open_mined_psi.Match.Slots.{SetupStore, no_setup, find_in_setup, max_elements}
use open_mined_psi.Match.Setup.{
  SetupFrame, k_tag, k_length, k_body, k_done, Setup, new_setup, read_setup,
}

pub data Phase : Type 0 where
  k_setup k_matching k_finished : Phase

-- The fields that the response fills.
pub record Response : Type 0 where
  pub batch : List Bytes
  pub decrypted_count : ℕ
  pub matched_setup : List ℕ
  pub response_indices : List ℕ
  pub setup_indices : List ℕ

pub record PsiMatch : Type 0 where
  pub reveal_intersection : Bool
  pub phase : Phase
  pub failure : Status
  pub setup : Setup
  pub response_reader : EntryReader
  pub response : Response

pub record PsiMatchResult : Type 0 where
  pub decrypted_count : ℕ
  pub intersection_size : ℕ
  pub response_indices : List ℕ
  pub setup_indices : List ℕ

abbrev pub no_response : Response
no_response = record {
  batch = [];
  decrypted_count = 0;
  matched_setup = [];
  response_indices = [];
  setup_indices = [];
}

-- The members of a match that `Create` made.
unfoldable pub create : Bool → PsiMatch
create reveal = record {
  reveal_intersection = reveal;
  phase = k_setup;
  failure = done;
  setup = new_setup;
  response_reader = new_reader;
  response = no_response;
}

-- A status beside the state.
abbrev pub Outcome {ℓ} : Type ℓ → Type ℓ
Outcome A = Option (Result A × PsiMatch)

unfoldable pub fail {ℓ} : {A : Type ℓ} → PsiMatch → Error → Result A × PsiMatch
fail m e = (err e, record m { failure = err e })

-- `if (!failure_.ok()) return failure_;`
abbrev pub unless_failed {ℓ} : {A : Type ℓ} → PsiMatch → Outcome A → Outcome A
unless_failed m rest = elim m.failure [ ok _ ↦ rest | err e ↦ some (err e, m) ]

-- `if (!status.ok()) return Fail(status);`
abbrev pub pass : Status → PsiMatch → Status × PsiMatch
pass status m = elim status [ ok _ ↦ (done, m) | err e ↦ fail m e ]

unfoldable pub add_setup_bytes : PsiMatch → Bytes → Outcome (Unit {0})
add_setup_bytes m bytes = unless_failed m (elim m.phase [
  | k_setup ↦ elim (read_setup m.setup bytes) [
    | none ↦ none
    | some (status, s) ↦ some (pass status (record m { setup = s }))
  ]
  | _ ↦ some (fail m (failed_precondition add_after_seal))
])

unfoldable pub seal_setup : PsiMatch → Outcome (Unit {0})
seal_setup m = unless_failed m (elim m.phase [
  | k_setup ↦ elim m.setup.setup_frame [
    | k_done ↦ some (
      done,
      record m {
        response = record m.response {
          matched_setup = replicate ((m.setup.store.setup_count + 63) / 64) 0;
        };
        phase = k_matching;
      },
    )
    | _ ↦ some (fail m (invalid_argument setup_incomplete))
  ]
  | _ ↦ some (fail m (failed_precondition seal_twice))
])

abbrev pub batch_elements : ℕ
batch_elements = 2 ^ 16

-- `matched_setup_[index >> 6] |= uint64_t{1} << (index & 63)`
unfoldable pub mark : List ℕ → ℕ → List ℕ
mark words index = set words (index / 64) (set_bit (index % 64) (get_or words (index / 64) 0))

module _ (decrypt : Bytes → Result Bytes) where
  -- `cipher_->Decrypt` of each element, the first refusal returned.
  unfoldable pub decrypt_batch : List Bytes → Result (List Bytes)
  decrypt_batch [] = ok []
  decrypt_batch (e ∷ es) = elim (decrypt e) [
    | err x ↦ err x
    | ok plain ↦ elim (decrypt_batch es) [ err x ↦ err x | ok plains ↦ ok (plain ∷ plains) ]
  ]

module _ (reveal : Bool) (s : SetupStore) where
  -- The body of the matching loop at element number `k`, where `find` gave `index`.
  unfoldable pub record_match : Response → ℕ → ℕ → Response
  record_match r k index =
      let r' = record r { matched_setup = mark r.matched_setup index } in
      if reveal
      then record r' {
        response_indices = push_back r.response_indices ((r.decrypted_count + k) % 2 ^ 32);
        setup_indices = push_back r.setup_indices (index % 2 ^ 32);
      }
      else r'

  -- The loop over the decrypted batch from element number `k`.
  unfoldable pub match_from : ℕ → List Bytes → Response → Option Response
  match_from k [] r = some r
  match_from k (plain ∷ plains) r = elim (find_in_setup s plain) [
    | none ↦ none
    | some none ↦ match_from (k + 1) plains r
    | some (some index) ↦ match_from (k + 1) plains (record_match r k index)
  ]

  -- `none` in the first place of the pair: a search ran out of fuel.
  unfoldable pub match_batch : (Bytes → Result Bytes) → Response → Option (Status × Response)
  match_batch decrypt r = elim r.batch [
    | [] ↦ some (done, r)
    | _ ∷ _ ↦ elim (decrypt_batch decrypt r.batch) [
      | err x ↦ some (err x, r)
      | ok plains ↦ elim (match_from 0 plains r) [
        | none ↦ none
        | some r' ↦
            some
              (done, record r' { decrypted_count = r'.decrypted_count + length plains; batch = [] })
      ]
    ]
  ]

  -- The state that the callback keeps: the response's fields, or `none` once a search starved.
  unfoldable pub add_response_element :
      (Bytes → Result Bytes) → Bytes → Option Response → Status × Option Response
  add_response_element decrypt element none = (done, none)
  add_response_element decrypt element (some r) =
      if leb max_elements (r.decrypted_count + length r.batch)
      then (err (invalid_argument too_many_response_elements), some r)
      else let r' = record r { batch = push_back r.batch element } in
        if leb batch_elements (length r'.batch)
        then elim (match_batch decrypt r') [
          | none ↦ (done, none)
          | some (status, r'') ↦ (status, some r'')
        ]
        else (done, some r')

-- The end of `MatchResponsePiece`: the rest of the batch, then the failure if any.
unfoldable pub end_piece :
    (Bytes → Result Bytes) → PsiMatch → Status → Response → Outcome (Unit {0})
end_piece decrypt m status r = elim status [
  | err e ↦ some (fail (record m { response = r }) e)
  | ok _ ↦ elim (match_batch m.reveal_intersection m.setup.store decrypt r) [
    | none ↦ none
    | some (status', r') ↦ some (pass status' (record m { response = r' }))
  ]
]

unfoldable pub match_response_piece : (Bytes → Result Bytes) → PsiMatch → Bytes → Outcome (Unit {0})
match_response_piece decrypt m bytes = unless_failed m (elim m.phase [
  | k_setup ↦ some (fail m (failed_precondition match_before_seal))
  | k_finished ↦ some (fail m (failed_precondition match_after_finish))
  | k_matching ↦
      elim (feed (add_response_element m.reveal_intersection m.setup.store decrypt)
        m.response_reader bytes (some m.response)) [
          | none ↦ none
          | some fed ↦ elim fed.owner [
            | none ↦ none
            | some r ↦ end_piece decrypt (record m { response_reader = fed.reader }) fed.status r
          ]
        ]
])

-- The sum of `std::bitset<64>(word).count()`.
unfoldable pub count_words : List ℕ → ℕ
count_words [] = 0
count_words (w ∷ ws) = popcount 64 w + count_words ws

-- The moved-from index vectors are left empty.
unfoldable pub finish : PsiMatch → Outcome PsiMatchResult
finish m = unless_failed m (elim m.phase [
  | k_setup ↦ some (fail m (failed_precondition finish_before_seal))
  | k_finished ↦ some (fail m (failed_precondition finish_twice))
  | k_matching ↦
      if not (at_entry_boundary m.response_reader)
      then some (fail m (invalid_argument response_inside_element))
      else some (
        ok (record {
          decrypted_count = m.response.decrypted_count;
          intersection_size = count_words m.response.matched_setup;
          response_indices = m.response.response_indices;
          setup_indices = m.response.setup_indices;
        }),
        record m {
          phase = k_finished;
          setup = record m.setup { store = record m.setup.store { setup_blocks = [] } };
          response = record m.response {
            batch = [];
            matched_setup = [];
            response_indices = [];
            setup_indices = [];
          };
        },
      )
])
