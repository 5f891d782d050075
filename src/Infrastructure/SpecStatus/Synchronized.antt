-- ===== src/Infrastructure/SpecStatus/Synchronized.antt =====
-- What a successful synchronization of spec and status leaves.
use cluster_network_operator.Prelude.{
  Outcome, ok, >>=-eq-ok, ok-injective, String, ◌≡◌, ◌≢◌, ◌⊎◌, refl, Bool, List, [], ◌∷◌, arith,
  eq_iff, ap, subst, ==_refl, head?, sym, ◌∙◌,
}
use cluster_network_operator.Infrastructure.SpecStatus.{
  VipError, AddressLibrary, VipSpec, VipStatus, sync_machine_networks, sync_vips,
  synchronize_fields, validate_vips_with_vips, validate_vips_with_machine_networks,
}

-- the first list, unless it is empty
abbrev pub or_else : List String → List String → List String
or_else [] ys = ys
or_else (x ∷ xs) ys = x ∷ xs

or_else_nonempty : (xs ys : List String) → xs ≢ [] → or_else xs ys ≡ xs
or_else_nonempty [] ys h = absurd (h refl)
or_else_nonempty (x ∷ xs) ys h = refl

-- The VIPs after a success: those of the spec, if it has any, and otherwise those of the status.
abbrev pub InStep : List String → List String → List String → List String → Type 0
InStep spec status spec' status' =
    (status' ≡ spec') × (head? status' ≡ head? status) × (spec' ≡ or_else spec status)

sync_vips-InStep :
    (spec status : List String) (s' t' : List String)
    → sync_vips spec status ≡ ok (s', t')
    → InStep spec status s' t'
unfolding sync_vips
sync_vips-InStep [] status s' t' h = ground arith
sync_vips-InStep (w ∷ spec) [] s' t' h = cc
sync_vips-InStep (w ∷ spec) (v ∷ status) s' t' h = ground (arith, eq_iff w v)

sync_machine_networks_ok :
    (spec status t' : List String)
    → sync_machine_networks spec status ≡ ok t'
    → (t' ≡ spec) × ((status ≡ []) ⊎ (head? t' ≡ head? status))
unfolding sync_machine_networks
sync_machine_networks_ok spec [] t' h = ground arith
sync_machine_networks_ok [] (n ∷ status) t' h = cc
sync_machine_networks_ok (w ∷ spec) (n ∷ status) t' h = ground (arith, eq_iff w n)

sync_vips_self : (vips : List String) → sync_vips vips vips ≡ ok (vips, vips)
unfolding sync_vips
sync_vips_self [] = refl
sync_vips_self (v ∷ vips) = rw (==_refl v)

sync_vips_again :
    (spec status : List String) (s' t' : List String)
    → sync_vips spec status ≡ ok (s', t')
    → sync_vips s' t' ≡ ok (s', t')
unfolding sync_vips
sync_vips_again [] status s' t' h =
    subst (λ r. sync_vips r.0 r.1 ≡ ok r) (ok-injective h) (sync_vips_self status)
sync_vips_again (w ∷ spec) [] s' t' h = cc
sync_vips_again (w ∷ spec) (v ∷ status) s' t' h =
    subst (λ r. sync_vips r.0 r.1 ≡ ok r)
      (let e : ◌≡◌ {A = Outcome VipError (List String × List String)} (ok (w ∷ spec, w ∷ spec))
            (ok (s', t')) =
          ground (arith, eq_iff w v) in
        ok-injective e)
      (sync_vips_self (w ∷ spec))

module _ (addresses : AddressLibrary) (spec : VipSpec) (status : VipStatus) (elb : Bool) where
  -- the steps of a success
  record Success (spec' : VipSpec) (status' : VipStatus) : Type 0 where
    networks :
        sync_machine_networks spec.machine_networks status.machine_networks
        ≡ ok status'.machine_networks
    distinct : validate_vips_with_vips addresses spec.api_vips spec.ingress_vips elb ≡ ok tt
    api_inside :
        validate_vips_with_machine_networks addresses spec.api_vips spec.machine_networks ≡ ok tt
    ingress_inside :
        validate_vips_with_machine_networks addresses spec.ingress_vips spec.machine_networks
        ≡ ok tt
    api : sync_vips spec.api_vips status.api_vips ≡ ok (spec'.api_vips, status'.api_vips)
    ingress :
        sync_vips spec.ingress_vips status.ingress_vips
        ≡ ok (spec'.ingress_vips, status'.ingress_vips)
    same_networks : spec'.machine_networks ≡ spec.machine_networks

  synchronize_fields-Success :
      (spec' : VipSpec) (status' : VipStatus)
      → synchronize_fields addresses spec status elb ≡ ok (spec', status')
      → Success spec' status'
  unfolding synchronize_fields
  synchronize_fields-Success spec' status' h =
      let api_inside =
        validate_vips_with_machine_networks addresses spec.api_vips spec.machine_networks in
      let ingress_inside =
        validate_vips_with_machine_networks addresses spec.ingress_vips spec.machine_networks in
      let networks = sync_machine_networks spec.machine_networks status.machine_networks in
      let (n, hn, h1) = >>=-eq-ok networks _ h in
      let (_, hd, h2) =
        >>=-eq-ok (validate_vips_with_vips addresses spec.api_vips spec.ingress_vips elb) _ h1 in
      let (_, ha, h3) = >>=-eq-ok api_inside _ h2 in
      let (_, hi, h4) = >>=-eq-ok ingress_inside _ h3 in
      let (api, hapi, h5) = >>=-eq-ok (sync_vips spec.api_vips status.api_vips) _ h4 in
      let (ing, hing, h6) = >>=-eq-ok (sync_vips spec.ingress_vips status.ingress_vips) _ h5 in
      let e = ok-injective h6 in
      record {
        networks = subst (λ (r : VipSpec × VipStatus). networks ≡ ok r.1.machine_networks) e hn;
        distinct = hd;
        api_inside = ha;
        ingress_inside = hi;
        api =
            subst
              (λ (r : VipSpec × VipStatus).
                sync_vips spec.api_vips status.api_vips ≡ ok (r.0.api_vips, r.1.api_vips))
              e hapi;
        ingress =
            subst
              (λ (r : VipSpec × VipStatus).
                sync_vips spec.ingress_vips status.ingress_vips
                ≡ ok (r.0.ingress_vips, r.1.ingress_vips))
              e hing;
        same_networks = ap (λ (r : VipSpec × VipStatus). r.0.machine_networks) (sym e);
      }

  Success-synchronize_fields :
      {spec' : VipSpec} {status' : VipStatus}
      → Success spec' status'
      → synchronize_fields addresses spec status elb ≡ ok (spec', status')
  unfolding synchronize_fields
  Success-synchronize_fields s =
      rw (s.networks, s.distinct, s.api_inside, s.ingress_inside, s.api, s.ingress, s.same_networks)

  -- A synchronization that succeeds leaves in the status what it leaves in the spec, for the VIPs of
  -- the API and of the ingress and for the machine networks; it keeps the first VIP of the status of
  -- each kind, and the first machine network of a status that has one; and VIPs that the spec names
  -- are kept in the spec, while a spec without any takes those of the status.
  pub synchronize_fields-InStep :
      (spec' : VipSpec) (status' : VipStatus)
      → synchronize_fields addresses spec status elb ≡ ok (spec', status')
      → InStep spec.api_vips status.api_vips spec'.api_vips status'.api_vips
        × InStep spec.ingress_vips status.ingress_vips spec'.ingress_vips status'.ingress_vips
        × (status'.machine_networks ≡ spec'.machine_networks)
        × ((status.machine_networks ≡ [])
            ⊎ (head? status'.machine_networks ≡ head? status.machine_networks))
  synchronize_fields-InStep spec' status' h =
      let s = synchronize_fields-Success spec' status' h in
      let n = sync_machine_networks_ok spec.machine_networks status.machine_networks _ s.networks in
      (
        sync_vips-InStep spec.api_vips status.api_vips _ _ s.api,
        sync_vips-InStep spec.ingress_vips status.ingress_vips _ _ s.ingress,
        n.0 ∙ sym s.same_networks,
        n.1,
      )

sync_machine_networks_self :
    (networks : List String) → sync_machine_networks networks networks ≡ ok networks
unfolding sync_machine_networks
sync_machine_networks_self [] = refl
sync_machine_networks_self (n ∷ networks) = rw (==_refl n)

-- Once VIPs of both kinds are in the spec, a synchronization that succeeded changes nothing when it
-- runs again on its own result.
pub synchronize_fields_idem :
    (addresses : AddressLibrary) (spec : VipSpec) (status : VipStatus) (elb : Bool)
    (spec' : VipSpec) (status' : VipStatus)
    → spec.api_vips ≢ []
    → spec.ingress_vips ≢ []
    → synchronize_fields addresses spec status elb ≡ ok (spec', status')
    → synchronize_fields addresses spec' status' elb ≡ ok (spec', status')
synchronize_fields_idem addresses spec status elb spec' status' has_api has_ingress h =
    let s = synchronize_fields-Success addresses spec status elb spec' status' h in
    let in_step = synchronize_fields-InStep addresses spec status elb spec' status' h in
    let a = in_step.0.2 ∙ or_else_nonempty spec.api_vips status.api_vips has_api in
    let i = in_step.1.2 ∙ or_else_nonempty spec.ingress_vips status.ingress_vips has_ingress in
    Success-synchronize_fields addresses spec' status' elb (record {
      networks =
          subst (λ n. sync_machine_networks spec'.machine_networks n ≡ ok n) (sym (in_step.2))
            (sync_machine_networks_self spec'.machine_networks);
      distinct = rw (a, i, s.distinct);
      api_inside = rw (a, s.same_networks, s.api_inside);
      ingress_inside = rw (i, s.same_networks, s.ingress_inside);
      api = sync_vips_again spec.api_vips status.api_vips _ _ s.api;
      ingress = sync_vips_again spec.ingress_vips status.ingress_vips _ _ s.ingress;
      same_networks = refl;
    })
