-- ===== src/Retrieval.antt =====
-- The directory src/retrieval: the index reader, the ranker, the set of results and the handler.
pub mod Reader
pub mod Handler
pub mod Example
pub mod Asynchronous
mod Tests
