-- ===== src/Infrastructure.antt =====
-- pkg/controller/infrastructureconfig: keeping the old, the new and the specified virtual IPs of a
-- cluster's infrastructure object in step.
pub mod Vips
pub mod SpecStatus
