-- ===== src/Retrieval/Asynchronous.antt =====
-- The directory src/retrieval/asynchronous: an intrusive list, a list to wait on, and the threads that
-- serve retrievals from it.
pub mod LinkedList
pub mod WaitList
pub mod Task
mod Tests
