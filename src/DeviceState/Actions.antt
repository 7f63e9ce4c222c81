-- ===== src/DeviceState/Actions.antt =====
-- The methods of DeviceState in cmd/kube-ovn-dra-kubeletplugin/state.go, as actions on its state.
-- The state lock serializes them.
pub mod Outcome
pub mod Holds
pub mod Halfway
pub mod Idempotent
pub mod Recorded
pub mod Restart
use kube_ovn_dra_driver.Prelude.{
  ℕ, String, ◌<>◌, ◌==◌, Bool, true, false, not, Option, none, some, List, [], ◌∷◌, ◌++◌, Map,
  empty_map, map, Error, message, wrap, join_errors, Result, ok, err, if◌then◌else◌,
}
use kube_ovn_dra_driver.Exec.{Exec, pure, lift, fail, wrapping, ◌>>=◌, ◌>>◌}
use kube_ovn_dra_driver.Store.{NicStore, Spec, remove_claim}
use kube_ovn_dra_driver.Claim.{DeviceResult, Allocation, ResourceClaim, ConfigObject}
use kube_ovn_dra_driver.Config.{OpaqueDeviceConfig, Group, get_opaque_device_configs, group_result}
use kube_ovn_dra_driver.Publisher.Device.{Device}
use kube_ovn_dra_driver.NicPrepare.Request.{NicDeviceConfig, request_ipam}
use kube_ovn_dra_driver.Cdi.{
  ApiDevice, PreparedDevice, get_claim_devices, claim_spec, versioned, claim_spec_name,
}
use kube_ovn_dra_driver.DeviceState.Host.{
  PreparedClaims, Resources, Settings, Host, State, lookup_claim, insert_claim, delete_claim,
  allocatable_devices,
}
use kube_ovn_dra_driver.DeviceState.Parts.{
  PrepItem, nic_spec_from_config, items_of, check_admin_access, check_interface_names,
  apply_configs, or_zero, Resolved, add_resolved, with_nics, add_nics,
}
use kube_ovn_dra_driver.DeviceState.Devices.{Method, call, read, get_devices, prepare_devices}

module _ {W : Type 0} (s : Settings) (host : Host W) where
  unfoldable pub create_claim_spec_file : String → List PreparedDevice → W → Option Error × W
  unfolding claim_spec versioned claim_spec_name
  create_claim_spec_file uid devices w =
      elim (versioned s.cdi.tools (claim_spec s.cdi uid devices)) [
        | err e ↦ (some e, w)
        | ok spec ↦ host.write_spec spec (claim_spec_name s.cdi uid) w
      ]

  abbrev pub delete_claim_spec_file : String → W → Option Error × W
  delete_claim_spec_file uid = host.remove_spec (claim_spec_name s.cdi uid)

  -- Prepare's part behind the test whether the claim is prepared.
  pub prepare_new : ResourceClaim → PreparedClaims → Method W (List ApiDevice)
  unfolding prepare_devices create_claim_spec_file
  prepare_new claim prepared = do
    devices ← wrapping "prepare failed" [] (prepare_devices s host claim)
    wrapping "unable to create CDI spec file for claim" []
        (call (create_claim_spec_file claim.uid devices))
    wrapping "unable to sync to checkpoint" []
        (call (host.create_checkpoint (insert_claim claim.uid devices prepared)))
    pure (get_devices devices)

  prepare_with : ResourceClaim → PreparedClaims → Method W (List ApiDevice)
  unfolding prepare_new
  prepare_with claim prepared = elim (lookup_claim claim.uid prepared) [
    | some devices ↦ pure (get_devices devices)
    | none ↦ prepare_new claim prepared
  ]

  unfoldable pub prepare : ResourceClaim → Method W (List ApiDevice)
  unfolding prepare_with
  prepare claim =
      wrapping "unable to sync from checkpoint" [] (read host.get_checkpoint) >>= prepare_with claim

  -- unprepareDevices
  unfoldable pub unprepare_devices : String → Method W (Unit {0})
  unprepare_devices uid st = (
    ok tt,
    record st {
      nic_store = elim st.nic_store [ none ↦ none | some p ↦ some (remove_claim p uid) ];
    },
  )

  -- Unprepare with a checkpoint that was read, or made anew.
  pub unprepare_with : String → PreparedClaims → Method W (Unit {0})
  unfolding unprepare_devices
  unprepare_with uid prepared = elim (lookup_claim uid prepared) [
    | none ↦ pure tt
    | some devices ↦ do
      wrapping "unprepare failed" [] (unprepare_devices uid)
      wrapping "unable to delete CDI spec file for claim" [] (call (delete_claim_spec_file uid))
      wrapping "unable to sync to checkpoint" []
          (call (host.create_checkpoint (delete_claim uid prepared)))
  ]

  unfoldable pub unprepare : String → Method W (Unit {0})
  unfolding unprepare_with
  unprepare uid st = elim (host.get_checkpoint st.world) [
    | ok prepared ↦ unprepare_with uid prepared st
    | err e ↦
        (do
          wrapping "unable to create new checkpoint" [] (call (host.create_checkpoint []))
          unprepare_with uid [])
          st
  ]

  unfoldable pub refresh_devices : Method W (Resources × Bool)
  refresh_devices st = elim (host.enumerate st.world) [
    | err e ↦ (err (wrap "enumerate devices" [] e), st)
    | ok resources ↦
        if s.deep_equal resources st.driver_resources then (ok (resources, false), st) else (
          ok (resources, true),
          record st {
            driver_resources = resources;
            allocatable = allocatable_devices resources s.node_name;
          },
        )
  ]

  -- The loop of restoreNICs, over the claims in the order of the map.
  unfoldable pub restore_claims : PreparedClaims → Option NicStore → Option NicStore
  restore_claims [] store = store
  restore_claims ((uid, ds) ∷ p) store = restore_claims p (add_nics ds store)

  unfoldable pub restore_nics : Method W (Unit {0})
  unfolding restore_claims
  restore_nics st = elim st.nic_store [
    | none ↦ (ok tt, st)
    | some p ↦
        (do
          prepared ← wrapping "unable to sync from checkpoint" [] (read host.get_checkpoint)
          λ st'. (ok tt, record st' { nic_store = restore_claims prepared st'.nic_store }))
          st
  ]
