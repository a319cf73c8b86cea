-- ===== src/Protocol.antt =====
-- The protocol's messages, private_set_intersection/proto/psi.proto, and what the client and the server
-- of private_set_intersection/cpp take from elsewhere: the commutative cipher and the floating point
-- formulas. A message keeps the answer of its `IsInitialized`.
pub mod Messages
pub mod Client
pub mod Server
pub mod Agreement
pub mod Filtered
pub mod Compressed
pub mod Associated
pub mod Hidden
pub mod Whole
pub mod Threads
use open_mined_psi.Base.{ℕ, Bool, Bytes, List}
use open_mined_psi.Status.{Result}
use open_mined_psi.Containers.Bloom.{BloomFilter}
use open_mined_psi.Containers.Gcs.{Gcs}

pub data DataStructure : Type 0 where
  raw : List Bytes → DataStructure
  gcs : Gcs → DataStructure
  bloom_filter : BloomFilter → DataStructure
  not_set : DataStructure

pub record ServerSetup : Type 0 where
  pub setup_initialized : Bool
  pub data_structure : DataStructure

pub record Request : Type 0 where
  pub request_initialized : Bool
  pub request_reveal : Bool
  pub request_elements : List Bytes

pub record ServerResponse : Type 0 where
  pub response_initialized : Bool
  pub response_elements : List Bytes

-- `ECCommutativeCipher`
pub record Cipher : Type 0 where
  pub encrypt : Bytes → Result Bytes
  pub re_encrypt : Bytes → Result Bytes
  pub decrypt : Bytes → Result Bytes
  pub private_key : Bytes
