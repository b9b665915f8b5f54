-- ===== src/Flow.antt =====
-- gnes/flow: the builder that joins services into a graph.
pub mod Data
pub mod Args
pub mod Endpoints
pub mod Edit
pub mod View
pub mod Growth
pub mod Asking
pub mod Addition
pub mod Invariant
pub mod Removal
pub mod Rewiring
pub mod Setting
pub mod Graph
pub mod Naming
pub mod Session
pub mod Options
pub mod Building
pub mod Built
