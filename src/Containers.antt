-- ===== src/Containers.antt =====
-- The data structures of a server setup, private_set_intersection/cpp/datastructure.
pub mod Doubles
pub mod Bloom
pub mod Raw
pub mod Golomb
pub mod Gcs
pub mod Association
