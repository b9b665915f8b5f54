-- ===== src/Router.antt =====
-- gnes/router and gnes/service/router.py: messages that wait for the parts of their request.
pub mod Envelope
pub mod Pending
pub mod Merging
pub mod Barrier
