-- ===== src/Collaboration.antt =====
-- Real-time collaboration (src/modules/uml-domain): the stores that live in the process.
pub mod Locks
pub mod Database
pub mod Commands
pub mod RateLimiter
pub mod ExportQuota
pub mod Presence
pub mod MutationQueue
pub mod LockTests
pub mod CommandTests
mod BroadcastTests
mod StoreTests
mod QueueTests
