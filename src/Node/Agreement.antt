-- ===== src/Node/Agreement.antt =====
-- The bindings to Node, private_set_intersection/napi/psi_napi.cpp, and to JavaScript,
-- private_set_intersection/javascript/cpp/, on messages that parse.
use open_mined_psi.Base.{
  Bool, ◌&&◌, Bytes, List, map, replicate, length, Option, none, some, if◌then◌else◌,
}
use open_mined_psi.Containers.Doubles.{Doubles}
use open_mined_psi.Protocol.Server.{Choice}
use open_mined_psi.JavaScript.{to_int32}
use open_mined_psi.JavaScript.Server.{SetupObject, is_raw}
use open_mined_psi.Node.{Answer, returned, has_been_deleted, starved}

-- What JavaScript is given of the answer of Node's `CreateSetupMessage`: on a failure it has a
-- permutation of zeros all the same, if it asked for one.
abbrev pub setup_answered : List Bytes → Choice → Bool → Answer SetupObject → Option SetupObject
setup_answered inputs ds include_permutation (returned x) = some (record {
  object = x.object;
  permutation = elim x.object.status [
    | none ↦ elim x.permutation [ none ↦ none | some p ↦ some (map to_int32 p) ]
    | some _ ↦ if include_permutation && is_raw ds then some (replicate (length inputs) 0) else none
  ];
})
setup_answered inputs ds include_permutation has_been_deleted = none
setup_answered inputs ds include_permutation starved = none
