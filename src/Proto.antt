-- ===== src/Proto.antt =====
-- gnes/proto: requests and how a message travels with its bytes beside it.
pub mod Message
pub mod Transport
pub mod RoundTrip
pub mod Squeeze
