-- ===== src/Ovn.antt =====
-- pkg/network/ovn_kubernetes.go: what is rolled out of ovn-kubernetes, and when.
pub mod Status
pub mod Progress
pub mod Upgrade
pub mod Ipsec
pub mod Cluster
