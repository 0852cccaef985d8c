-- ===== src/Store.antt =====
-- What the use cases read and write: the tables behind the repositories, as the in-memory
-- repositories of src/infra/persistence/in-memory keep them, and the actions on them.
mod Tables
mod Actions
pub mod Repositories
pub mod Laws
pub use Tables.*
mod Outbox
unfoldable pub use Actions.*
unfoldable pub use Outbox.*
