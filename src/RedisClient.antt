-- ===== src/RedisClient.antt =====
-- The class redis::Client of src/redispp.h and src/redispp.cc, over the library hiredis.
pub mod Hiredis
pub mod Connection
pub mod Commands
pub mod Transaction
pub mod Protocol
pub mod Batch
pub mod Stale
pub mod Example
mod Tests
