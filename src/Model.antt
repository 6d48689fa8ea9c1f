-- ===== src/Model.antt =====
-- The rows of packages/domain/models.py and the database as a record of tables.
mod Rows
mod Database
mod Transactions
pub use Transactions.*
pub use Rows.*
pub use Database.*
