-- ===== src/Tests.antt =====
-- The theorems at concrete inputs, and runs of the functions.
pub mod Matches
pub mod Threads
mod Containers
mod Compressed
mod Orders
mod Associated
mod Ciphers
mod Protocols
mod Interfaces
mod Carried
mod Threaded
mod Wires
mod Bindings
