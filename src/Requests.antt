-- ===== src/Requests.antt =====
-- Batches of data (gnes/helper.py) and the requests made of them (gnes/proto/__init__.py).
pub mod Batch
pub mod Generator
