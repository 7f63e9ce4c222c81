-- ===== src/Witnesses/Whole.antt =====
-- A claim from its Prepare to the start of its pod, and an Unprepare of it that fails.
use kube_ovn_dra_driver.Prelude.{
  String, true, false, Option, none, some, List, [], ◌∷◌, ◌++◌, ◌≡◌, ◌≢◌, refl, arith, empty_map,
  Error, message, ok, err, wrap, eq_iff,
}
use kube_ovn_dra_driver.Store.{new_nic_store}
use kube_ovn_dra_driver.Sandbox.{on_run_pod_sandbox, attach_all, sandbox_specs}
use kube_ovn_dra_driver.Sandbox.Rollback.{Call, attaches, recording}
use kube_ovn_dra_driver.DeviceState.Host.{Host, IsHost, State, lookup_claim}
use kube_ovn_dra_driver.DeviceState.Actions.Holds.{IsAtomic}
use kube_ovn_dra_driver.Cdi.{PreparedDevice}
use kube_ovn_dra_driver.DeviceState.Devices.{get_devices}
use kube_ovn_dra_driver.DeviceState.Actions.{prepare, unprepare}
use kube_ovn_dra_driver.DeviceState.Actions.Recorded.{found}
use kube_ovn_dra_driver.DeviceState.Actions.Halfway.{half_unprepared_claim_has_no_nics}
use kube_ovn_dra_driver.Plugin.Runtime.{
  PodSandbox, first_network, network_namespace_path, run_pod_sandbox,
}
use kube_ovn_dra_driver.Plugin.Connection.{Connection, start_nri_plugin, set_ready, closed}
use kube_ovn_dra_driver.Plugin.System.{System, on_store, Runs, here, next, connection}
use kube_ovn_dra_driver.Plugin.System.Attached.{in_sandbox, prepared_nics_are_attached}
use kube_ovn_dra_driver.Witnesses.Data.{nic, two_nics, web_claim}
use kube_ovn_dra_driver.Witnesses.Plugin.{
  Disk, settings, host, host-IsHost, fresh, after_prepare, one_device, after_claims, after_store,
  web_nic, prepared_facts, prepared_once,
}
use kube_ovn_dra_driver.Witnesses.Restarts.{setup, setup-IsSetup}

-- Every attach succeeds.
abbrev succeeds : List Call → Call → Option Error
succeeds w c = none

host-IsAtomic : IsAtomic host
host-IsAtomic = record { get-failed = λ p w f. absurd (f refl) }

abbrev web_sandbox : PodSandbox
web_sandbox = record {
  uid = "p1";
  id = "c1";
  name = "web";
  namespace = "default";
  labels = empty_map;
  namespaces = some (record { type = "network"; path = "/run/netns/a" } ∷ []);
}

abbrev before_prepare : System Disk
before_prepare = record { state = fresh; nri = start_nri_plugin new_nic_store [] }

-- The connection is lost once.
abbrev lost : Connection (List Call)
lost = record (on_store after_store before_prepare.nri) {
  plugin = set_ready false (on_store after_store before_prepare.nri).plugin;
}

abbrev whole : System Disk
whole = record { state = record after_prepare { nic_store = some after_store }; nri = lost }

lost_once :
    Runs setup settings host succeeds true "u1"
      (record before_prepare { state = after_prepare })
      whole
lost_once = next here (
    connection (record before_prepare { state = after_prepare }) after_store lost prepared_facts.3
      (closed (on_store after_store before_prepare.nri) refl))

web_netns : network_namespace_path web_sandbox ≢ ""
unfolding network_namespace_path first_network
web_netns =
    λ e. let same : "/run/netns/a" ≡ "" = e in ground (arith, same, eq_iff "/run/netns/a" "")

web_started :
    (run_pod_sandbox (recording succeeds) web_sandbox (on_store after_store lost).plugin).0 ≡ none
unfolding run_pod_sandbox network_namespace_path first_network on_run_pod_sandbox attach_all
    sandbox_specs
web_started = rw prepared_facts.4 refl

prepared_nics_are_attached_example :
    (before : List Call) × (after : List Call) × ((run_pod_sandbox
        (recording succeeds)
        web_sandbox
        (on_store after_store lost).plugin).1.host
      ≡ [] ++ (before ++ attaches (in_sandbox web_sandbox web_nic) ∷ after))
    × (succeeds ([] ++ before) (attaches (in_sandbox web_sandbox web_nic)) ≡ none)
unfolding lookup_claim
prepared_nics_are_attached_example =
    prepared_nics_are_attached setup settings host succeeds true host-IsHost host-IsAtomic
      setup-IsSetup before_prepare whole web_claim [] after_claims new_nic_store after_store
      after_prepare one_device web_sandbox "net1" web_nic refl tt refl refl prepared_once
      prepared_facts.1 prepared_facts.2 lost_once refl web_netns web_started

-- A host on which no CDI file can be removed.
abbrev busy : Error
busy = message "device or resource busy" []

abbrev stuck_host : Host Disk
stuck_host = record host { remove_spec = λ name w. (some busy, w) }

stuck_host-IsHost : IsHost stuck_host
stuck_host-IsHost = record {
  read_back = λ p w h. refl;
  get-write_spec = λ s name w. refl;
  get-remove_spec = λ name w. refl;
  get-annotate_vmi = λ patch ns name key value w h. cc h;
}

abbrev web_devices : List PreparedDevice
web_devices =
    record {
      device = record {
        request_names = "nic" ∷ [];
        pool_name = "node1";
        device_name = "sub";
        cdi_device_ids = [];
      };
      container_edits = none;
      admin_access = false;
      nic = some (nic "u1" "net1");
    }
    ∷ []

abbrev prepared_state : State Disk
prepared_state = record fresh { nic_store = some two_nics; world = some (("u1", web_devices) ∷ []) }

half_unprepared_claim_has_no_nics_example :
    let (r, st') = unprepare settings stuck_host "u1" prepared_state in
    (r ≡ err (wrap "unable to delete CDI spec file for claim" [] busy))
    × (prepare settings stuck_host web_claim st' ≡ (ok (get_devices web_devices), st'))
    × ((pod iface : String) → found st'.nic_store pod "u1" iface ≡ none)
unfolding lookup_claim
half_unprepared_claim_has_no_nics_example =
    half_unprepared_claim_has_no_nics settings stuck_host stuck_host-IsHost web_claim
      (("u1", web_devices) ∷ []) web_devices prepared_state two_nics busy refl refl refl refl
