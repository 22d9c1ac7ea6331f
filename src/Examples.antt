-- ===== src/Examples.antt =====
-- Concrete data that the examples of the other modules are about: a world in which every part that the
-- model leaves open is a small function.
pub mod Data
pub mod KernelRuns
pub mod Trails
pub mod Checks
pub mod Approvals
pub mod Quotas
pub mod Stores
pub mod Tokens
pub mod Access
pub mod Tools
pub mod Commands
pub mod Monitoring
