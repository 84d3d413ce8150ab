-- ===== src/Ffi.antt =====
-- src/ffi.rs: the C interface.
pub mod Agreement
pub mod Codes
pub mod Handles
pub mod Create
pub mod Events
mod Examples
pub mod Builder
pub mod ChildEnv
pub mod Frozen
pub mod Keys
pub mod Run
pub mod Store
