-- ===== src/Indexer.antt =====
-- gnes/indexer: what the indexers keep beside their vectors.
pub mod Keys
pub mod Hamming
pub mod Buckets
pub mod Room
pub mod Results
pub mod Stale
pub mod Sifting
pub mod Tally
pub mod Sinking
pub mod Offering
pub mod Scanning
pub mod Nearest
pub mod Trie
pub mod Lookups
pub mod Apart
pub mod Listing
pub mod Arrays
pub mod Adding
pub mod Ranking
pub mod Ranked
pub mod Answered
