-- ===== src/Store.antt =====
-- The database: its tables, the transactions over them, and how their bodies are reasoned about.
mod Rows
mod Transaction
mod Logic
mod Commit
mod Attempt
pub mod Pool
pub mod Rely
pub mod Alone
unfoldable pub use Rows.*
unfoldable pub use Transaction.*
pub use Logic.*
pub use Commit.*
pub use Attempt.*
