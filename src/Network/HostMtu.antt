-- ===== src/Network/HostMtu.antt =====
-- mtu.go: the MTU of the host, by its default routes.
pub mod Least
use cluster_network_operator.Prelude.{
  ℕ, ◌+◌, Bool, true, false, not, ◌&&◌, List, [], ◌∷◌, Option, none, some, ◌==◌, nat_eq, ltb,
  if◌then◌else◌, Outcome, ok, fail, ◌>>=◌,
}
use cluster_network_operator.Network.Pools.{is_nil}

-- what is read of a route: whether it has no destination, its link, and the links of its paths
pub record Route : Type 0 where
  pub is_default : Bool
  pub link_index : ℕ
  pub multi_path : List ℕ

pub data HostMtuError : Type 0 where
  routes_not_listed no_routes no_link mtu_not_determined : HostMtuError
  link_not_found : ℕ → HostMtuError

abbrev pub smaller : ℕ → ℕ → ℕ
smaller new mtu = if ltb 0 new && ltb new mtu then new else mtu

-- netlink.LinkByIndex, by the MTU of the link
module _ (link_mtu : ℕ → Option ℕ) where
  abbrev pub step_link : ℕ → ℕ → Outcome HostMtuError ℕ
  step_link index mtu = elim (link_mtu index) [
    | none ↦ fail (link_not_found index)
    | some new ↦ ok (smaller new mtu)
  ]

  unfoldable pub scan_links : List ℕ → ℕ → Outcome HostMtuError ℕ
  scan_links [] mtu = ok mtu
  scan_links (index ∷ links) mtu = do mtu' ← step_link index mtu; scan_links links mtu'

  -- one turn of the loop over the routes
  unfoldable pub step_route : Route → ℕ → Outcome HostMtuError ℕ
  unfolding scan_links
  step_route route mtu =
      if not route.is_default
      then ok mtu
      else if route.link_index == 0
      then (if is_nil route.multi_path then fail no_link else scan_links route.multi_path mtu)
      else step_link route.link_index mtu

  unfoldable pub scan_routes : List Route → ℕ → Outcome HostMtuError ℕ
  unfolding step_route
  scan_routes [] mtu = ok mtu
  scan_routes (route ∷ routes) mtu = do mtu' ← step_route route mtu; scan_routes routes mtu'

  -- by the result of netlink.RouteList
  unfoldable pub get_default_mtu : Option (List Route) → Outcome HostMtuError ℕ
  unfolding scan_routes
  get_default_mtu none = fail routes_not_listed
  get_default_mtu (some []) = fail no_routes
  get_default_mtu (some (route ∷ routes)) = do
    mtu ← scan_routes (route ∷ routes) (65536 + 1)
    if ltb 65536 mtu then fail mtu_not_determined else ok mtu
