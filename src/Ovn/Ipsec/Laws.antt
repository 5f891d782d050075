-- ===== src/Ovn/Ipsec/Laws.antt =====
-- What is rendered for IPsec, in every state of the cluster.
use cluster_network_operator.Prelude.{
  String, ◌≡◌, ◌≢◌, ◌↔◌, ◌⊎◌, Bool, true, false, Option, arith, eq_iff,
}
use cluster_network_operator.Ovn.Ipsec.{
  InfraStatus, full, disabled, get_ipsec_mode, is_user_defined_ipsec_machine_config_present,
  is_cno_ipsec_machine_config_present, is_ovn_ipsec_active, should_render_ipsec,
}

module _ (ipsec_config : Option String) (infra : InfraStatus) (status : Option Bool) where
  -- IPsec is rendered into OVN exactly in the full mode, whatever state the cluster is in.
  pub ovn-rendered_iff :
      ((should_render_ipsec ipsec_config infra status).ovn ≡ true)
      ↔ (get_ipsec_mode ipsec_config ≡ full)
  unfolding should_render_ipsec
  ovn-rendered_iff = ground (arith, eq_iff (get_ipsec_mode ipsec_config) full)

  -- When OVN IPsec is active and the mode is no longer full, the daemonset of the cluster's kind is
  -- kept, marked so that it is not updated before OVN IPsec is off.
  pub disabling_keeps_daemon_set :
      is_ovn_ipsec_active infra status ≡ true
      → get_ipsec_mode ipsec_config ≢ full
      → let r = should_render_ipsec ipsec_config infra status in
        (r.ovn ≡ false)
        × (r.daemon_set ≡ true)
        × (r.create_wait_only ≡ true)
        × ((r.host_daemon_set ≡ true) ⊎ (r.containerized_daemon_set ≡ true))
  unfolding should_render_ipsec
  disabling_keeps_daemon_set active off = ground (arith, eq_iff (get_ipsec_mode ipsec_config) full)

  -- The operator's own machine config is rendered only where it is needed and safe: not for a hosted
  -- cluster, not beside a user's machine configs, and not before the machine config operator is
  -- ready, unless it is there already. With IPsec disabled it is rendered only while OVN IPsec is
  -- still active.
  pub cno_machine_config_needs :
      (should_render_ipsec ipsec_config infra status).cno_machine_config ≡ true
      → (infra.hosted_control_plane ≡ false)
        × (is_user_defined_ipsec_machine_config_present infra ≡ false)
        × ((is_cno_ipsec_machine_config_present infra ≡ true)
            ⊎ (infra.machine_config_operator_ready ≡ true))
        × ((get_ipsec_mode ipsec_config ≢ disabled) ⊎ (is_ovn_ipsec_active infra status ≡ true))
  unfolding should_render_ipsec
  cno_machine_config_needs h = ground (
    arith,
    eq_iff (get_ipsec_mode ipsec_config) full,
    eq_iff (get_ipsec_mode ipsec_config) disabled,
    eq_iff disabled full,
  )
