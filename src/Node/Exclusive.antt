-- ===== src/Node/Exclusive.antt =====
-- The objects of the binding to Node, private_set_intersection/napi/psi_napi.cpp.
use open_mined_psi.Base.{
  ℕ, ◌≡◌, refl, Bool, true, false, Bytes, List, none, some, Option-cases, inl, inr,
}
use open_mined_psi.Status.{Error, Result, ok, err, done, Result-cases}
use open_mined_psi.Match.Session.{PsiMatch, seal_setup, finish}
use open_mined_psi.Protocol.{ServerSetup, Request, ServerResponse, Cipher}
use open_mined_psi.Protocol.Client.{
  create_client, create_request, get_intersection, get_intersection_size, get_association,
  create_match,
}
use open_mined_psi.Protocol.Server.{create_server, create_setup_message, process_request}
use open_mined_psi.Base.Integer.{ℤ}
use open_mined_psi.Containers.Doubles.{Doubles}
use open_mined_psi.JavaScript.{JsObject, Message}
use open_mined_psi.JavaScript.Server.{SetupObject}
use open_mined_psi.Node.{
  Answer, returned, has_been_deleted, starved, make_ok, make_error, wrap, status_only,
  serialized_ok, parse_from_array,
}
use open_mined_psi.Node.Client.{
  PsiClientWrap, node_create_client, node_create_request, node_create_match,
  parse_setup_and_response, node_get_intersection, node_get_association_table,
  node_get_intersection_size,
}
use open_mined_psi.Node.Server.{
  PsiServerWrap, node_choice, node_create_server, node_create_setup_message, node_process_request,
}
use open_mined_psi.Node.Match.{PsiMatchWrap, node_seal_setup, node_finish}

-- Exactly one of `Value` and `Status` is not null.
abbrev pub has_one {ℓ} : {A : Type ℓ} → JsObject A → Bool
has_one o = elim o.value [
  | none ↦ elim o.status [ none ↦ false | some _ ↦ true ]
  | some _ ↦ elim o.status [ none ↦ true | some _ ↦ false ]
]

-- So it is of an object that was returned.
abbrev pub IsExclusive {ℓ} : {A : Type ℓ} → Answer (JsObject A) → Type 0
IsExclusive (returned o) = has_one o ≡ true
IsExclusive has_been_deleted = Unit
IsExclusive starved = Unit

-- And of the object of `CreateSetupMessage`, which has a permutation beside it.
abbrev pub IsSetupExclusive : Answer SetupObject → Type 0
IsSetupExclusive (returned x) = has_one x.object ≡ true
IsSetupExclusive has_been_deleted = Unit
IsSetupExclusive starved = Unit

module _ (message : Error → Bytes) (sha256 : Bytes → ℕ) (d : Doubles) (order : List Bytes → List ℕ)
    (setups : Message ServerSetup) (requests : Message Request)
    (responses : Message ServerResponse) where
  intersection-IsExclusive :
      (self : PsiClientWrap) (setup_bytes response_bytes : Bytes)
      → IsExclusive (
          node_get_intersection message sha256 order setups responses self setup_bytes
            response_bytes)
  unfolding node_get_intersection make_ok make_error
  intersection-IsExclusive none setup_bytes response_bytes = tt
  intersection-IsExclusive (some client) setup_bytes response_bytes =
      elim (Result-cases (parse_setup_and_response setups responses setup_bytes response_bytes)) [
        | inr (e, bad) ↦ rw (bad, node_get_intersection) refl
        | inl ((s, r), both) ↦ elim (Option-cases (get_intersection sha256 client s r)) [
          | inl gone ↦ rw (both, gone, node_get_intersection) tt
          | inr (err e, ran) ↦ rw (both, ran, node_get_intersection) refl
          | inr (ok found, ran) ↦ rw (both, ran, node_get_intersection) refl
        ]
      ]

  association-IsExclusive :
      (self : PsiClientWrap) (setup_bytes response_bytes : Bytes)
      → IsExclusive (
          node_get_association_table message sha256 order setups responses self setup_bytes
            response_bytes)
  unfolding node_get_association_table make_ok make_error
  association-IsExclusive none setup_bytes response_bytes = tt
  association-IsExclusive (some client) setup_bytes response_bytes =
      elim (Result-cases (parse_setup_and_response setups responses setup_bytes response_bytes)) [
        | inr (e, bad) ↦ rw (bad, node_get_association_table) refl
        | inl ((s, r), both) ↦ elim (Option-cases (get_association order client s r)) [
          | inl gone ↦ rw (both, gone, node_get_association_table) tt
          | inr (err e, ran) ↦ rw (both, ran, node_get_association_table) refl
          | inr (ok found, ran) ↦ rw (both, ran, node_get_association_table) refl
        ]
      ]

  size-IsExclusive :
      (self : PsiClientWrap) (setup_bytes response_bytes : Bytes)
      → IsExclusive (
          node_get_intersection_size message sha256 order setups responses self setup_bytes
            response_bytes)
  unfolding node_get_intersection_size make_ok make_error
  size-IsExclusive none setup_bytes response_bytes = tt
  size-IsExclusive (some client) setup_bytes response_bytes =
      elim (Result-cases (parse_setup_and_response setups responses setup_bytes response_bytes)) [
        | inr (e, bad) ↦ rw (bad, node_get_intersection_size) refl
        | inl ((s, r), both) ↦ elim (Option-cases (get_intersection_size sha256 client s r)) [
          | inl gone ↦ rw (both, gone, node_get_intersection_size) tt
          | inr (err e, ran) ↦ rw (both, ran, node_get_intersection_size) refl
          | inr (ok found, ran) ↦ rw (both, ran, node_get_intersection_size) refl
        ]
      ]

  create_request-IsExclusive :
      (self : PsiClientWrap) (inputs : List Bytes)
      → IsExclusive (node_create_request message requests self inputs)
  unfolding node_create_request serialized_ok make_ok make_error
  create_request-IsExclusive none inputs = tt
  create_request-IsExclusive (some client) inputs =
      elim (Result-cases (create_request client inputs)) [
        | inl (request, made) ↦ rw (made, node_create_request) refl
        | inr (e, refused) ↦ rw (refused, node_create_request) refl
      ]

  process_request-IsExclusive :
      (self : PsiServerWrap) (request_bytes : Bytes)
      → IsExclusive (node_process_request message requests responses self request_bytes)
  unfolding node_process_request serialized_ok make_ok make_error
  process_request-IsExclusive none request_bytes = tt
  process_request-IsExclusive (some server) request_bytes =
      elim (Option-cases (parse_from_array requests request_bytes)) [
        | inl bad ↦ rw (bad, node_process_request) refl
        | inr (request, one) ↦ elim (Result-cases (process_request server request)) [
          | inl (response, made) ↦ rw (one, made, node_process_request) refl
          | inr (e, refused) ↦ rw (one, refused, node_process_request) refl
        ]
      ]

  create_match-IsExclusive :
      (create_from_key : Bytes → Result Cipher) (self : PsiClientWrap)
      → IsExclusive (node_create_match message create_from_key self)
  unfolding node_create_match wrap make_ok make_error
  create_match-IsExclusive create_from_key none = tt
  create_match-IsExclusive create_from_key (some client) =
      elim (Result-cases (create_match create_from_key client)) [
        | inl (made, ran) ↦ rw (ran, node_create_match) refl
        | inr (e, refused) ↦ rw (refused, node_create_match) refl
      ]

  setup-IsExclusive :
      (self : PsiServerWrap) (fpr : d.Double) (n : ℤ) (inputs : List Bytes) (ds : ℤ)
      (include_permutation : Bool)
      → IsSetupExclusive (
          node_create_setup_message message sha256 d order setups self fpr n inputs ds
            include_permutation)
  unfolding node_create_setup_message serialized_ok make_ok make_error
  setup-IsExclusive none fpr n inputs ds include_permutation = tt
  setup-IsExclusive (some server) fpr n inputs ds include_permutation =
      elim (Option-cases
        (create_setup_message sha256 d order server fpr n inputs (node_choice ds))) [
          | inl gone ↦ rw (gone, node_create_setup_message) tt
          | inr (err e, ran) ↦ rw (ran, node_create_setup_message) refl
          | inr (ok (setup, permutation), ran) ↦ rw (ran, node_create_setup_message) refl
        ]

  client-has_one :
      (cipher : Result Cipher) (reveal : Bool)
      → has_one (node_create_client message cipher reveal) ≡ true
  unfolding node_create_client create_client wrap make_ok make_error
  client-has_one (ok cipher) reveal = refl
  client-has_one (err e) reveal = refl

  server-has_one :
      (cipher : Result Cipher) (reveal : Bool)
      → has_one (node_create_server message cipher reveal) ≡ true
  unfolding node_create_server create_server wrap make_ok make_error
  server-has_one (ok cipher) reveal = refl
  server-has_one (err e) reveal = refl

  finish-IsExclusive : (self : PsiMatchWrap) → IsExclusive (node_finish message self).0
  unfolding node_finish make_ok make_error
  finish-IsExclusive none = tt
  finish-IsExclusive (some m) = elim (Option-cases (finish m)) [
    | inl gone ↦ rw (gone, node_finish) tt
    | inr ((err e, m'), ran) ↦ rw (ran, node_finish) refl
    | inr ((ok finished, m'), ran) ↦ rw (ran, node_finish) refl
  ]

  -- Every object that a method or a factory with a result returns to Node has exactly one of `Value` and
  -- `Status`; that of a `SealSetup` that succeeds, which has no result, has neither.
  pub objects-IsExclusive :
      (client : PsiClientWrap) (server : PsiServerWrap) (match' : PsiMatchWrap)
      (setup_bytes response_bytes request_bytes : Bytes) (inputs : List Bytes)
      (create_from_key : Bytes → Result Cipher) (cipher : Result Cipher) (reveal : Bool)
      → IsExclusive (
          node_get_intersection message sha256 order setups responses client setup_bytes
            response_bytes)
        × IsExclusive (
            node_get_association_table message sha256 order setups responses client setup_bytes
              response_bytes)
        × IsExclusive (
            node_get_intersection_size message sha256 order setups responses client setup_bytes
              response_bytes)
        × IsExclusive (node_create_request message requests client inputs)
        × IsExclusive (node_create_match message create_from_key client)
        × IsExclusive (node_process_request message requests responses server request_bytes)
        × IsExclusive (node_finish message match').0
        × ((fpr : d.Double) (n ds : ℤ) (include_permutation : Bool)
            → IsSetupExclusive (
                node_create_setup_message message sha256 d order setups server fpr n inputs ds
                  include_permutation))
        × (has_one (node_create_client message cipher reveal) ≡ true)
        × (has_one (node_create_server message cipher reveal) ≡ true)
        × ((m m' : PsiMatch)
            → seal_setup m ≡ some (done, m')
            → node_seal_setup message (some m)
              ≡ (returned (record { value = none; status = none }), some m'))
  unfolding node_seal_setup status_only
  objects-IsExclusive client server match' setup_bytes response_bytes request_bytes inputs key
        cipher reveal =
      (
        intersection-IsExclusive client setup_bytes response_bytes,
        association-IsExclusive client setup_bytes response_bytes,
        size-IsExclusive client setup_bytes response_bytes,
        create_request-IsExclusive client inputs,
        create_match-IsExclusive key client,
        process_request-IsExclusive server request_bytes,
        finish-IsExclusive match',
        λ fpr n ds include_permutation.
            setup-IsExclusive server fpr n inputs ds include_permutation,
        client-has_one cipher reveal,
        server-has_one cipher reveal,
        λ m m' h. rw (h, node_seal_setup) refl,
      )
