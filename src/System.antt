-- ===== src/System.antt =====
-- The parts together: the manager's reconciler, the command line tool and the API server that they share.
pub mod Server
pub mod Sound
pub mod Stored
pub mod Steps
pub mod Interleaved
pub mod Invariant
pub mod Overlap
pub mod Spacing
pub mod Quiet
pub mod Frozen
pub mod Silent
pub mod Small
pub mod Examples
