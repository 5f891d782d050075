-- ===== src/Lib.antt =====
-- The cluster network operator rolls out the network of an OpenShift cluster: it reads the network
-- configuration and the state of the cluster, decides what is to run, and applies it. This library
-- models the decisions and the state that it keeps, and proves what makes them correct.
--
-- The parts, and the code that they model:
--   * Version: pkg/version/semver.go, the comparison of release versions. The semver package is a
--     parameter (`Semver`), with the law that the theorems need as `IsComparison`.
--   * Apps: the fields of Kubernetes' daemonsets and deployments that are read.
--   * Ovn: pkg/network/ovn_kubernetes.go, with pkg/bootstrap/types.go. `Ovn.Status` is the observed
--     state, `Ovn.Upgrade` the rollout decisions (shouldUpdateOVNKonIPFamilyChange,
--     shouldUpdateOVNKonUpgrade, shouldUpdateOVNKonPrepull, and their chain in renderOVNKubernetes),
--     `Ovn.Progress` daemonSetProgressing and deploymentProgressing, `Ovn.Ipsec` shouldRenderIPsec with
--     pkg/util/machineconfig/util.go and pkg/util/k8s/ownerref.go. `Ovn.Cluster` puts the decisions to
--     work: a transition system in which reconciliations alternate with a cluster that rolls out, or
--     does not, what it was given. An object tagged create-only is left as it is, as
--     pkg/apply/apply.go does.
--   * CheckEndpoints: pkg/cmd/checkendpoints. `Checker` is the way from a probe's result to the updates
--     of the status (manageStatusLogs, checkEndpoint), `Logs`, `Outage` and `Conditions` are these
--     updates (v1alpha1helpers/helpers.go, manageStatusOutage, manageStatusConditions), `Updates` the
--     queue that puts them in order (updates_manager.go), and `Backoff` the recorder of the events
--     (backoff_recorder.go).
--   * Infrastructure: pkg/controller/infrastructureconfig. `Vips` synchronizes the deprecated fields
--     (sync_vips.go), `SpecStatus` spec and status (sync_specstatus.go) with the validations
--     (validations.go).
--   * StatusManager: pkg/controller/statusmanager. `Manager` is the failures per level and the operations
--     on them, `Publish` the way of the conditions to the operator's object and the cluster operator
--     (set), `Related` the deletion of objects that are no longer rendered (these three: status_manager.go),
--     `Workloads` and `Pods` SetFromPods with its detection of hung rollouts (pod_status.go), and
--     `MachineConfigs` SetMachineConfigs and SetFromMachineConfigPool (machineconfig_status.go). The
--     libraries that find and set conditions (`ConditionLibrary`, laws `IsConditionLibrary`) and the API
--     that maps and deletes resources (`RelatedApi`) are parameters; which other calls succeed is part of
--     the `World`. A status of a workload is the counters that the code reads.
--   * Network: pkg/network/render.go, cluster_config.go, kube_proxy.go, mtu.go, additional_networks.go, the
--     rest of ovn_kubernetes.go, pkg/util/ip/addr.go and pkg/util/k8s/kubeproxy.go. A change goes through
--     three steps: it is validated, its defaults are filled in, and it is compared with what is applied.
--     `Configuration` is these steps (Validate, FillDefaults, IsChangeSafe, NeedMTUProbe), put together of
--     `Subnets` (NetsOverlap and the pool of disjoint networks), `Spec` and `Equal` (the types of the API,
--     and reflect.DeepEqual on them), `Pools` (validateIPPools), `ClusterConfig` (ValidateClusterConfig,
--     MergeClusterConfig, StatusFromOperatorConfig), `NodeSubnets` (the subnets of ovn-kubernetes and their
--     size), `OvnConfig`, `OvnDefaults` and `OvnChanges` (validateOVNKubernetes,
--     fillOVNKubernetesDefaults, isOVNKubernetesChangeSafe), `NetworkChanges` (isNetworkChangeSafe), and
--     `KubeProxy` (kube_proxy.go). Beside them are `Additional` (additional networks and the correction of
--     their capitals), `HostMtu` (GetDefaultMTU), and `ProxyArguments` with `ProxyConfiguration`
--     (MergeKubeProxyArguments, GenerateKubeProxyConfiguration).
--   * NoProxy: pkg/util/proxyconfig/no_proxy.go, mergeUserSystemNoProxy.
--   * Prelude: shared names, lists over native numbers, association lists for maps, stable sorting.
--   * Tests: the theorems at concrete inputs.
--
-- How the code is rendered. A struct is a record, a nil pointer `none`, an error a value of a result
-- type, a map an association list (an iteration over it takes the list's order, where the code's order
-- is random). Times and durations are numbers of nanoseconds, the zero time is 0, and a difference
-- of times in a test is written as a sum on the other side. Counters and generations of the API are
-- natural numbers; where a difference of two may be negative in the code the definition says why
-- stopping at 0 changes nothing. All recursion is structural, on lists, so no fuel is needed. Log
-- messages are left out; texts that end up in the status are kept. Where the code panics (indexing an
-- empty slice), the model has an error of its own.
--
-- The network libraries are parameters: `NetLibrary` is net.ParseCIDR, the test for an IPv6 network and
-- the mask that stands behind the slash, with the laws `IsNetLibrary`; `parse_ip` parses an address,
-- `text_before` compares texts; `AdditionalLibrary`, `ArgumentLibrary`, `ProxyLibrary` and `TextLibrary` are
-- the parsers and printers that their components call; `link_mtu` is the MTU of a link. A panic is
-- `none`, or a `Panic` where errors are values too. Integers of 32 bits keep their wrap-around, a shift
-- of an int loses what is beyond 64 bits. Two configurations are compared by the fields that are
-- modelled, and a nil list is the empty one.
--
-- Not modelled: reading and applying objects through the API, its caches and retries; rendering of the
-- manifests' templates, with the data that is copied into them; the other controllers, which fetch
-- objects and apply rendered ones; dialling and TLS; certificates; the goroutines around the operations,
-- which the code serialises by locks; the mirror of the status for HyperShift, and the annotations that
-- the status manager keeps its states in.
pub mod Prelude
pub mod Version
pub mod Apps
pub mod Ovn
pub mod CheckEndpoints
pub mod Infrastructure
pub mod StatusManager
pub mod Network
pub mod NoProxy
pub mod Tests
