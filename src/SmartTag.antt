-- ===== src/SmartTag.antt =====
-- src/app/smart_tag.h: the shared types, their constants and the inline helpers of the header.
pub mod Types
mod Constants
mod Bounds
mod Helpers
pub use Types.*
pub use Constants.*
unfoldable pub use Helpers.*
pub use Bounds.*
