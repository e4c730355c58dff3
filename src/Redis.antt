-- ===== src/Redis.antt =====
-- The Redis client, a third-party package, as an interface with its laws. A keyspace (the keys of
-- one prefix) is a list of entries; what it holds is seen by `get` alone. Times are milliseconds,
-- lives are seconds, as `EX` takes them.
mod Client
pub mod Sets
pub mod Reference
pub use Client.{Entry, Redis, IsRedis}
