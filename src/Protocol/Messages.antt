-- ===== src/Protocol/Messages.antt =====
-- `ToProtobuf` and `CreateFromProtobuf` of the containers, private_set_intersection/cpp/datastructure/. A
-- message has the fields of its container; a field of another case of the `oneof` reads as that of an
-- empty message. The `div` of a Golomb compressed set is an `int32` there, and is below 2^31.
use open_mined_psi.Base.{◌%◌, ◌^◌, not, true, Bytes, List, [], if◌then◌else◌}
use open_mined_psi.Status.{setup_corrupt, invalid_argument, Result, ok, err}
use open_mined_psi.Containers.Bloom.{BloomFilter}
use open_mined_psi.Containers.Gcs.{Gcs}
use open_mined_psi.Protocol.{DataStructure, raw, gcs, bloom_filter, not_set, ServerSetup}

abbrev initialized : DataStructure → ServerSetup
initialized d = record { setup_initialized = true; data_structure = d }

unfoldable pub raw_to_protobuf : List Bytes → ServerSetup
raw_to_protobuf encrypted = initialized (raw encrypted)

unfoldable pub gcs_to_protobuf : Gcs → ServerSetup
gcs_to_protobuf g = initialized (gcs (record g { gcs_div = g.gcs_div % 2 ^ 32 }))

unfoldable pub bloom_filter_to_protobuf : BloomFilter → ServerSetup
bloom_filter_to_protobuf f = initialized (bloom_filter f)

-- `raw()`, `gcs()` and `bloom_filter()` of a message.
abbrev raw_of : DataStructure → List Bytes
raw_of (raw encrypted) = encrypted
raw_of (gcs g) = []
raw_of (bloom_filter f) = []
raw_of not_set = []

abbrev gcs_of : DataStructure → Gcs
gcs_of (raw encrypted) = record { golomb = []; gcs_div = 0; hash_range = 0 }
gcs_of (gcs g) = g
gcs_of (bloom_filter f) = record { golomb = []; gcs_div = 0; hash_range = 0 }
gcs_of not_set = record { golomb = []; gcs_div = 0; hash_range = 0 }

abbrev bloom_filter_of : DataStructure → BloomFilter
bloom_filter_of (raw encrypted) = record { num_hash_functions = 0; bits = [] }
bloom_filter_of (gcs g) = record { num_hash_functions = 0; bits = [] }
bloom_filter_of (bloom_filter f) = f
bloom_filter_of not_set = record { num_hash_functions = 0; bits = [] }

unfoldable pub raw_from_protobuf : ServerSetup → Result (List Bytes)
raw_from_protobuf setup =
    if not setup.setup_initialized
    then err (invalid_argument setup_corrupt)
    else ok (raw_of setup.data_structure)

unfoldable pub gcs_from_protobuf : ServerSetup → Result Gcs
gcs_from_protobuf setup =
    if not setup.setup_initialized
    then err (invalid_argument setup_corrupt)
    else ok (gcs_of setup.data_structure)

unfoldable pub bloom_filter_from_protobuf : ServerSetup → Result BloomFilter
bloom_filter_from_protobuf setup =
    if not setup.setup_initialized
    then err (invalid_argument setup_corrupt)
    else ok (bloom_filter_of setup.data_structure)
