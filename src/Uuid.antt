-- ===== src/Uuid.antt =====
-- gnes/uuid.py: the generators of document ids.
mod Bits
pub mod Counter
pub mod Snowflake
pub mod Order
pub mod Progress
