-- ===== src/Infrastructure/Vips/Laws.antt =====
-- The fields after a synchronization of the VIPs, and after another one.
use cluster_network_operator.Prelude.{
  String, ◌≡◌, refl, ap, true, false, ◌==◌, if◌then◌else◌, List, [], ◌∷◌, none, some, arith, eq_iff,
  string_eq,
}
use cluster_network_operator.Infrastructure.Vips.{
  contains, sync_vips, PlatformVips, sync_platform, Platform, bare_metal, open_stack, ovirt,
  nutanix, vsphere, other, vips_synchronize,
}

sync_vips_again :
    (new : List String) (old : String)
    → let s = sync_vips new old in
      ((sync_vips s.new_vips s.old_vip).new_vips ≡ s.new_vips)
      × ((sync_vips s.new_vips s.old_vip).old_vip ≡ s.old_vip)
      × ((sync_vips s.new_vips s.old_vip).warning ≡ false)
unfolding sync_vips
sync_vips_again [] old = ground (arith, eq_iff old "", eq_iff old old)
sync_vips_again (first ∷ vips) old = ground (arith, eq_iff first first)

-- the field's list begins with the deprecated field, or both are empty
abbrev pub Agree : List String → String → Type 0
Agree [] old = old ≡ ""
Agree (first ∷ vips) old = old ≡ first

-- the list, or if it is empty the deprecated field's value, if that is set
abbrev pub or_single : List String → String → List String
or_single [] old = if old == "" then [] else old ∷ []
or_single (first ∷ vips) old = first ∷ vips

-- After a synchronization the deprecated field is the first VIP of the list, or both are empty; the
-- list itself has changed only from empty to the deprecated field's value. A second synchronization
-- changes nothing and warns of nothing.
pub sync_vips_settles :
    (new : List String) (old : String)
    → let s = sync_vips new old in
      Agree s.new_vips s.old_vip
      × (s.new_vips ≡ or_single new old)
      × (sync_vips s.new_vips s.old_vip ≡ record s { warning = false })
unfolding sync_vips
sync_vips_settles [] old = ground (arith, eq_iff old "", eq_iff old old)
sync_vips_settles (first ∷ vips) old = ground (arith, eq_iff first first)

-- A list that does not hold the empty text is synchronized with a warning when the deprecated field
-- is empty, as when it holds another value.
pub empty_old_warns :
    (first : String) (vips : List String)
    → contains (first ∷ vips) "" ≡ false
    → (sync_vips (first ∷ vips) "").warning ≡ true
unfolding sync_vips
empty_old_warns first vips h = rw h

sync_platform_idem : (p : PlatformVips) → sync_platform (sync_platform p) ≡ sync_platform p
unfolding sync_platform
sync_platform_idem p =
    ground
      (arith, sync_vips_again p.api_vips p.api_vip, sync_vips_again p.ingress_vips p.ingress_vip)

-- Synchronizing the VIPs of an infrastructure object twice is the same as once.
pub vips_synchronize_idem :
    (p : Platform) → vips_synchronize (vips_synchronize p) ≡ vips_synchronize p
unfolding vips_synchronize
vips_synchronize_idem (bare_metal p) = ap bare_metal (sync_platform_idem p)
vips_synchronize_idem (vsphere (some p)) = ap (λ q. vsphere (some q)) (sync_platform_idem p)
vips_synchronize_idem (vsphere none) = refl
vips_synchronize_idem (open_stack p) = ap open_stack (sync_platform_idem p)
vips_synchronize_idem (ovirt p) = ap ovirt (sync_platform_idem p)
vips_synchronize_idem (nutanix p) = ap nutanix (sync_platform_idem p)
vips_synchronize_idem other = refl
