-- ===== src/Db.antt =====
-- internal/db: the rows of PostgreSQL and the two repositories, statement by statement.
pub mod Models
pub mod Orders
pub mod Credentials
pub mod Pool
