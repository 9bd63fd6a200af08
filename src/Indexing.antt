-- ===== src/Indexing.antt =====
-- The directory src/indexing: posting lists, the inverted index and the threads that keep it.
pub mod Base
pub mod PostingList
pub mod CleanOldStoryThread
pub mod Interleaving
pub mod State
pub mod IndexBuildThread
pub mod InstantIndex
pub mod ReplayLog
pub mod Example
mod Tests
