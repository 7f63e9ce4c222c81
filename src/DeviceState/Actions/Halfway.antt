-- ===== src/DeviceState/Actions/Halfway.antt =====
-- An Unprepare of cmd/kube-ovn-dra-kubeletplugin/state.go that fails halfway.
use kube_ovn_dra_driver.Prelude.{
  String, none, some, List, [], ◌≡◌, refl, ◌∙◌, Error, ok, err, wrap, eq_refl,
}
use kube_ovn_dra_driver.Claim.{ResourceClaim}
use kube_ovn_dra_driver.Store.{NicStore}
use kube_ovn_dra_driver.Store.Lookup.{find_nic-remove_claim}
use kube_ovn_dra_driver.Cdi.{PreparedDevice, claim_spec_name}
use kube_ovn_dra_driver.DeviceState.Host.{
  PreparedClaims, Settings, Host, IsHost, State, lookup_claim,
}
use kube_ovn_dra_driver.DeviceState.Actions.{prepare, unprepare}
use kube_ovn_dra_driver.DeviceState.Devices.{get_devices}
use kube_ovn_dra_driver.DeviceState.Actions.Outcome.{
  forgotten, unprepare-known, unprepare_with-found, prepare-again,
}
use kube_ovn_dra_driver.DeviceState.Actions.Recorded.{found}

module _ {W : Type 0} (s : Settings) (host : Host W) (laws : IsHost host) where
  abbrev failed_state : String → State W → State W
  failed_state uid st = record (forgotten s host laws uid st) {
    world = (host.remove_spec (claim_spec_name s.cdi uid) st.world).1;
  }

  unprepare-failed :
      (uid : String) (p : PreparedClaims) (ds : List PreparedDevice) (st : State W) (e : Error)
      → host.get_checkpoint st.world ≡ ok p
      → lookup_claim uid p ≡ some ds
      → (host.remove_spec (claim_spec_name s.cdi uid) st.world).0 ≡ some e
      → unprepare s host uid st
        ≡ (err (wrap "unable to delete CDI spec file for claim" [] e), failed_state uid st)
  unprepare-failed uid p ds st e c z f =
      unprepare-known s host laws uid p st c
      ∙ unprepare_with-found s host laws uid p ds st z
      ∙ rw f refl

  no_nic_left :
      (uid : String) (st : State W) (store : NicStore) (pod iface : String)
      → st.nic_store ≡ some store
      → found (failed_state uid st).nic_store pod uid iface ≡ none
  unfolding found
  no_nic_left uid st store pod iface i =
      rw i (find_nic-remove_claim store uid pod uid iface ∙ rw (eq_refl uid) refl)

  -- An Unprepare whose CDI file cannot be removed leaves a claim that is prepared without its NICs: it
  -- returns an error, the next Prepare of the claim returns its devices without one and changes
  -- nothing, and the NIC store has no NIC of the claim for any pod.
  pub half_unprepared_claim_has_no_nics :
      (claim : ResourceClaim) (p : PreparedClaims) (ds : List PreparedDevice) (st : State W)
      (store : NicStore) (e : Error)
      → host.get_checkpoint st.world ≡ ok p
      → lookup_claim claim.uid p ≡ some ds
      → st.nic_store ≡ some store
      → (host.remove_spec (claim_spec_name s.cdi claim.uid) st.world).0 ≡ some e
      → let (r, st') = unprepare s host claim.uid st in
        (r ≡ err (wrap "unable to delete CDI spec file for claim" [] e))
        × (prepare s host claim st' ≡ (ok (get_devices ds), st'))
        × ((pod iface : String) → found st'.nic_store pod claim.uid iface ≡ none)
  half_unprepared_claim_has_no_nics claim p ds st store e c z i f =
      let u = unprepare-failed claim.uid p ds st e c z f in
      let known = laws.get-remove_spec (claim_spec_name s.cdi claim.uid) st.world ∙ c in
      rw u (
        refl,
        prepare-again s host laws claim p ds (failed_state claim.uid st) known z,
        λ pod iface. no_nic_left claim.uid st store pod iface i,
      )
