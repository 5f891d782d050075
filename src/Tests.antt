-- ===== src/Tests.antt =====
-- Concrete runs of the theorems: versions "4.17" and "4.18", a few statuses, networks and addresses by table.
pub mod Releases
pub mod Rollouts
pub mod Checks
pub mod Queues
pub mod Addresses
pub mod Conditions
pub mod Reports
pub mod CleanUp
pub mod Workloads
pub mod Networks
pub mod Changes
pub mod Proxies
