-- ===== src/Models.antt =====
-- app/models: the enums, and the messages that go with a rejection.
mod Enums
mod Messages
unfoldable pub use Enums.*
pub use Messages.*
