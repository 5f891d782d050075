-- ===== src/Infrastructure/Vips.antt =====
-- sync_vips.go: the lists of VIPs and the deprecated single fields. A nil slice is the empty list.
pub mod Laws
use cluster_network_operator.Prelude.{
  String, Bool, true, false, not, List, [], ◌∷◌, Option, none, some, ◌==◌, string_eq, any,
  if◌then◌else◌,
}

-- the new field, the old field, and whether a warning is returned
pub record Synced : Type 0 where
  pub new_vips : List String
  pub old_vip : String
  pub warning : Bool

-- slices.Contains
unfoldable pub contains : List String → String → Bool
contains [] v = false
contains (x ∷ vips) v = let rest = contains vips v in if x == v then true else rest

unfoldable pub sync_vips : List String → String → Synced
unfolding contains
sync_vips [] old = record {
  new_vips = if not (old == "") then old ∷ [] else [];
  old_vip = old;
  warning = false;
}
sync_vips (first ∷ vips) old = record {
  new_vips = first ∷ vips;
  old_vip = first;
  warning = not (contains (first ∷ vips) old);
}

-- the fields of one platform's status that are synchronized
pub record PlatformVips : Type 0 where
  pub api_vips : List String
  pub api_vip : String
  pub ingress_vips : List String
  pub ingress_vip : String

-- both calls of `syncVIPs`; a warning is only logged
unfoldable pub sync_platform : PlatformVips → PlatformVips
unfolding sync_vips
sync_platform p =
    let api = sync_vips p.api_vips p.api_vip in
    let ingress = sync_vips p.ingress_vips p.ingress_vip in
    record {
      api_vips = api.new_vips;
      api_vip = api.old_vip;
      ingress_vips = ingress.new_vips;
      ingress_vip = ingress.old_vip;
    }

-- `Status.Platform`, with what the platform's own status holds. The code looks at it without a check
-- on all platforms but vSphere, so there the model has no nil.
pub data Platform : Type 0 where
  bare_metal open_stack ovirt nutanix : PlatformVips → Platform
  vsphere : Option PlatformVips → Platform
  other : Platform

unfoldable pub vips_synchronize : Platform → Platform
unfolding sync_platform
vips_synchronize (bare_metal p) = bare_metal (sync_platform p)
vips_synchronize (vsphere (some p)) = vsphere (some (sync_platform p))
vips_synchronize (vsphere none) = vsphere none
vips_synchronize (open_stack p) = open_stack (sync_platform p)
vips_synchronize (ovirt p) = ovirt (sync_platform p)
vips_synchronize (nutanix p) = nutanix (sync_platform p)
vips_synchronize other = other
