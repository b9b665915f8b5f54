-- ===== src/Service.antt =====
-- gnes/service: the sockets and message handling of a service.
pub mod Socket
pub mod Handler
pub mod Loop
pub mod Progress
pub mod Effects
pub mod Drain
pub mod Ending
pub mod Manager
pub mod Parallel
pub mod Indexing
pub mod Indexed
pub mod Documents
