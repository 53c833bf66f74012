-- ===== src/Storage.antt =====
-- src/storage.rs: the state directory, on a Unix system.
pub mod Access
pub mod State
pub mod Contacts
pub mod Fresh
pub mod Written
pub mod Taken
pub mod Found
pub mod Creation
pub mod Reload
pub mod Pins
pub mod Limits
pub mod Loading
pub mod Keeps
pub mod Unchanged
pub mod Consumed
pub mod Lookup
