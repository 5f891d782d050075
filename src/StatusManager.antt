-- ===== src/StatusManager.antt =====
-- pkg/controller/statusmanager: the conditions that the operator reports, from the failures that the
-- controllers name and the pods that it has rolled out.
pub mod Conditions
pub mod Related
pub mod Publish
pub mod Manager
pub mod Workloads
pub mod Pods
pub mod MachineConfigs
