-- ===== src/Store.antt =====
-- src/store.rs: the inboxes, the rooms and the rest of the broker's state.
pub mod Limits
pub mod Messages
pub mod Rooms
pub mod Tracking
pub mod Effects
pub mod Changes
pub mod Apply
pub mod Rename
pub mod Reads
pub mod Loading
pub mod Issued
pub mod Questions
mod Tests
