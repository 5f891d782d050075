-- ===== src/Tests/CleanUp.antt =====
-- A last status with objects that are no longer rendered, during an upgrade; and machine configs.
use cluster_network_operator.Prelude.{
  String, ◌≡◌, false, List, [], ◌∷◌, some, All, ◌==◌, string_eq, if◌then◌else◌,
}
use cluster_network_operator.StatusManager.Related.{
  ObjectReference, deleted, delete_failed, RelatedApi, delete_not_rendered,
}
use cluster_network_operator.StatusManager.Related.Safety.{Justified, delete_not_rendered-Justified}
use cluster_network_operator.StatusManager.MachineConfigs.{Configs, being_removed}
use cluster_network_operator.StatusManager.MachineConfigs.Removal.{
  succeeds, drops_whole_roles, being_removed-succeeds,
}

abbrev object : String → String → ObjectReference
object group name = record {
  group = group;
  resource = "things";
  namespace = "openshift-ovn-kubernetes";
  name = name;
}

-- every kind is known, and only the object "stuck" cannot be deleted
abbrev api : RelatedApi
api = record {
  kind_for = λ o. some (record { group = o.group; kind = "Thing" });
  delete = λ o. if o.name == "stuck" then delete_failed else deleted;
}

abbrev current : List ObjectReference
current =
    object "apps" "ovnkube-node"
    ∷ object "apps" "ovnkube-master"
    ∷ object "rbac.authorization.k8s.io" "old-role"
    ∷ object "apps" "stuck"
    ∷ []

abbrev rendered : List ObjectReference
rendered = object "apps" "ovnkube-node" ∷ []

delete_not_rendered-Justified_example :
    All (Justified api false rendered) (delete_not_rendered api false current rendered).1
delete_not_rendered-Justified_example = delete_not_rendered-Justified api false current rendered

abbrev two_configs : Configs
two_configs = ("worker", "80-ipsec-worker-extensions" ∷ "81-other" ∷ []) ∷ []

abbrev one_config : Configs
one_config = ("worker", "80-ipsec-worker-extensions" ∷ []) ∷ []

being_removed-succeeds_example :
    succeeds (being_removed two_configs one_config []) ≡ drops_whole_roles two_configs one_config
being_removed-succeeds_example = being_removed-succeeds two_configs one_config []
