-- ===== src/Examples.antt =====
-- The theorems at concrete inputs.
pub mod Flows
pub mod Messages
pub mod Graphs
pub mod Keys
pub mod Services
pub mod Composers
pub mod Vectors
pub mod Tries
pub mod Arrays
