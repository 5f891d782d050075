-- ===== src/Network.antt =====
-- pkg/network and pkg/util/ip: the configuration of the cluster's network, from what the user writes
-- to what is rolled out: its validation, its defaults, and which of its changes are safe.
pub mod Subnets
pub mod Spec
pub mod Pools
pub mod OvnConfig
pub mod ProxyArguments
pub mod ProxyConfiguration
pub mod HostMtu
pub mod Additional
pub mod Configuration
pub mod NetworkChanges
pub mod KubeProxy
pub mod OvnChanges
pub mod OvnDefaults
pub mod Equal
pub mod ClusterConfig
pub mod NodeSubnets
