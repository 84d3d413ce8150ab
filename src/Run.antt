-- ===== src/Run.antt =====
-- src/task.rs, `run_impl`: one run, the calls of `cancel` that race with it, and the timeout
-- monitor, as threads that interleave one shared access at a time.
pub mod System
pub mod Runner
pub mod Monitor
pub mod Canceller
pub mod Schedule
pub mod Streams
pub mod Direct
pub mod Frame
pub mod Lifecycle
pub mod Mutex
pub mod Cancelling
pub mod Cleanup
pub mod Completion
pub mod Deadline
pub mod Delivery
pub mod Ownership
pub mod Progress
pub mod TimingOut
pub mod Transcript
mod Examples
mod Faults
pub mod Fixtures
