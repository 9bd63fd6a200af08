-- ===== src/Util.antt =====
-- The directory src/util: containers, strings, time.
pub mod Bytes
pub mod Strings
pub mod Timer
pub mod ProducerConsumerQueue
pub mod LocklessList
