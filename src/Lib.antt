-- ===== src/Lib.antt =====
-- A model of the C++ core of the private set intersection library, private_set_intersection/cpp/, of its C
-- interface and of its bindings to JavaScript and to Node.
--
-- Parts and files:
--   Base, Base/*: byte strings, lists over the native numbers, bits, the order of `std::string`.
--   Status: `absl::Status` and `absl::StatusOr` with the messages as constructors.
--   Match, Match/*: cpp/psi_match.{h,cpp}, the streaming match. Compare is `CompareElements`; Reader is
--     `AddVarint32Byte` and `EntryReader::Feed`; Slots is `AddSetupElement`, `SetupElement` and
--     `FindInSetup` over blocks of bytes; Setup is the framing loop of `AddSetupBytes`; Session is the
--     class `PsiMatch` itself: phases, sticky failure, `SealSetup`, `MatchResponsePiece`, `MatchBatch`,
--     `Finish`. The reader hands whole entries to a callback: the setup's callback stores it in a slot,
--     the response's collects a batch that is decrypted and looked up among the slots. Wire is the wire
--     format of the two messages, and a whole use from encoded windows to the result.
--   Progress: cpp/progress.h, the counter that publishes in batches.
--   Parallel, Parallel/*: cpp/parallel_ec.cpp, `TransformElements`: its shards, and an interleaving of
--     them as the list of the shards that move.
--   Containers, Containers/*: cpp/datastructure/, the data structures of a server setup: Bloom is
--     bloom_filter.cpp, Raw and Association are raw.cpp, Golomb is golomb.cpp and Gcs is gcs.cpp.
--   Protocol, Protocol/*: cpp/psi_client.cpp and cpp/psi_server.cpp over the messages of
--     proto/psi.proto. The client encrypts its inputs into a request, the server encrypts them again
--     into a response, and the client decrypts that and intersects it with the container of the setup.
--     Messages is the conversion of the containers of cpp/datastructure/ to the setup's message and back.
--     Threads is the build with threads, `EncryptElements` and its kin.
--   CApi, CApi/*: c/psi_client.cpp, c/psi_server.cpp and c/internal_utils.cpp, the C interface: codes,
--     out parameters and the bytes of the messages.
--   JavaScript, JavaScript/*: javascript/cpp/, the binding of the client, the server and the match to
--     JavaScript and WebAssembly: objects with a `Value` and a `Status`, and the windows in which an array
--     is handed to the match.
--   Node, Node/*: napi/psi_napi.cpp, the same for Node: wraps that may be deleted, which throw.
--   Tests, Tests/*: concrete inputs.
--
-- Correspondence: a struct or class is a record of its fields, an enum a data type, a method a function
-- from the fields to the result and the new fields. A callback with captured state takes and returns
-- that state. Machine integers keep their wrap-around where it can show; in JavaScript/ a `std::size_t`
-- has the 32 bits of WebAssembly.
--
-- Bounds and fuel: `Feed` and `AddSetupBytes` loop on fuel, one round for each byte of the window, which
-- is enough because each round reads a byte at least; the binary search has 33 rounds, enough for fewer
-- than 2^32 elements. The cycle sort, the association table and the Golomb reader have fuel for each
-- index or bit they pass, which is enough because each round passes one at least. Running out of fuel is
-- `none`, apart from every result of the code, and so is a conversion or a shift that C++ leaves
-- undefined. The window loop of JavaScript/ has a round for each byte; an array of more than 2^32 - 2^20 bytes, on
-- which the loop of the code can go on for ever, can run out of it.
--
-- Parameters: the commutative cipher (an element operation in Parallel and Match), SHA-256 as a number,
-- the floating point formulas of the rate and of the containers' sizes, the order that `std::sort` gives
-- the indexes of equal elements, for the C interface `malloc`, and for it and the bindings the protobuf
-- library and the texts of the messages.
--
-- Not modelled: cryptography, key wiping, memory order of the progress slot and its place in the
-- bindings, the registration of classes and methods with embind and N-API, the binding to Python,
-- benchmarks and tests.
pub mod Base
pub mod Status
pub mod Match
pub mod Progress
pub mod Parallel
pub mod Containers
pub mod Protocol
pub mod CApi
pub mod JavaScript
pub mod Node
pub mod Tests
