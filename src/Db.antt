-- ===== src/Db.antt =====
-- The database client: its interface, its laws, and a client over lists that meets them.
mod Client
pub mod Reference
pub use Client.{Prisma, IsPrisma}
