-- ===== src/Controller.antt =====
-- operator/internal/controller: the reconcilers.
pub mod Cluster
pub mod Monad
pub mod Ends
pub mod Workload
pub mod Phases
pub mod Pending
pub mod Mirror
pub mod Seeding
pub mod Migration
mod Tests
pub mod Audit
