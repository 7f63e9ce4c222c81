-- ===== src/DeviceState/Parts.antt =====
-- The parts of DeviceState's methods in cmd/kube-ovn-dra-kubeletplugin/state.go that change nothing
-- but the NIC store: interface names, specs, edits, items.
pub mod Interfaces
use kube_ovn_dra_driver.Prelude.{
  ℕ, String, ◌<>◌, ◌==◌, Bool, true, false, not, ◌&&◌, ◌||◌, Option, none, some, List, [], ◌∷◌,
  ◌++◌, Map, empty_map, map, Error, message, join_errors, Result, ok, err, wrap, any, contains,
  if◌then◌else◌, update,
}
use mathlib.Core.Option
use kube_ovn_dra_driver.Exec.{Exec, pure, lift, fail, wrapping, ◌>>=◌, ◌>>◌}
use kube_ovn_dra_driver.Store.{NicStore, Spec, add, specs, remove_claim, new_nic_store}
use kube_ovn_dra_driver.Claim.{
  DeviceResult, Allocation, ConsumerRef, ResourceClaim, ConfigObject, nic_config, NicConfig,
}
use kube_ovn_dra_driver.Config.{OpaqueDeviceConfig, Group, get_opaque_device_configs, group_result}
use kube_ovn_dra_driver.Publisher.Device.{Device}
use kube_ovn_dra_driver.NicPrepare.Request.{NicDeviceConfig, request_ipam}
use kube_ovn_dra_driver.Cdi.{ApiDevice, PreparedDevice, get_claim_devices, claim_spec}
use kube_ovn_dra_driver.DeviceState.Host.{
  PreparedClaims, Resources, Settings, Host, State, lookup_claim, insert_claim, delete_claim,
  allocatable_devices,
}

-- An allocation result with the interface name that its config gives it.
pub record PrepItem : Type 0 where
  pub result : DeviceResult
  pub iface_name : String

-- nicSpecFromConfig, with the claim's UID.
unfoldable pub nic_spec_from_config : String → NicDeviceConfig → Spec
nic_spec_from_config claim_uid c = record {
  pod_uid = c.pod_uid;
  pod_name = c.pod_name;
  pod_namespace = c.pod_namespace;
  claim_uid = claim_uid;
  netns_path = "";
  iface_name = c.iface_name;
  ip = c.ip;
  extra_ips = c.extra_ips;
  mac = c.mac;
  gateway = c.gateway;
  routes = c.routes;
  mtu = c.mtu;
  container_id = "";
  provider = c.provider;
  iface_id = c.logical_switch_port;
  kube_virt_vmi = false;
  ovn_dhcp = c.ovn_dhcp;
}

-- The interface name of a config: "net1" unless a NicConfig names another.
abbrev pub iface_of : Bool → Option ConfigObject → String
iface_of true (some (nic_config c)) = if c.interface_name == "" then "net1" else c.interface_name
iface_of _ _ = "net1"

unfoldable pub items_of : Bool → List Group → List PrepItem
items_of is_nic [] = []
items_of is_nic (g ∷ gs) =
    map (λ r. record { result = r; iface_name = iface_of is_nic g.config }) g.results
    ++ items_of is_nic gs

-- checkAdminAccess
unfoldable pub check_admin_access : ResourceClaim → Bool
check_admin_access claim = elim claim.allocation [
  | none ↦ false
  | some a ↦ any (λ r. elim r.admin_access [ some b ↦ b | none ↦ false ]) a.results
]

-- The first name that stands in the list twice, in the order of the loop.
unfoldable pub first_repeated : List String → List String → Option String
first_repeated seen [] = none
first_repeated seen (name ∷ names) =
    if contains seen name then some name else first_repeated (name ∷ seen) names

-- The first NIC of another claim that has one of the names.
unfoldable pub first_taken : String → List String → List Spec → Option Spec
first_taken claim_uid names [] = none
first_taken claim_uid names (s ∷ ss) =
    if not (s.claim_uid == claim_uid) && contains names s.iface_name
    then some s
    else first_taken claim_uid names ss

-- The loop over ReservedFor.
unfoldable pub taken_by_pods :
    NicStore → String → List String → List ConsumerRef → Option (String × Spec)
unfolding first_taken
taken_by_pods store claim_uid names [] = none
taken_by_pods store claim_uid names (ref ∷ refs) =
    let later = taken_by_pods store claim_uid names refs in
    if not (ref.resource == "pods") || not (ref.api_group == "")
    then later
    else elim (first_taken claim_uid names (specs store ref.uid)) [
      | some s ↦ some (ref.name, s)
      | none ↦ later
    ]

unfoldable pub check_interface_names : Option NicStore → ResourceClaim → List String → Option Error
unfolding first_repeated taken_by_pods
check_interface_names store claim names = elim (first_repeated [] names) [
  | some name ↦ some (
      message
        "claim %s/%s requests more than one NIC named %q; set a distinct interfaceName in each request's NicConfig"
        (claim.namespace ∷ claim.name ∷ name ∷ []))
  | none ↦ elim store [
    | none ↦ none
    | some p ↦ elim (taken_by_pods p claim.uid names claim.reserved_for) [
      | none ↦ none
      | some (pod_name, s) ↦ some (
          message
            "NIC %q of claim %s/%s is already used by another DRA NIC of pod %s/%s (claim UID %s); set a distinct interfaceName in the NicConfig"
            (s.iface_name ∷ claim.namespace ∷ claim.name ∷ claim.namespace ∷ pod_name ∷ s.claim_uid
              ∷ []))
    ]
  ]
]

-- The edits of the groups, merged: a later entry for a key replaces an earlier one.
unfoldable pub merge_edits : List (String × List String) → Map (List String) → Map (List String)
merge_edits [] out = out
merge_edits ((k, env) ∷ es) out = merge_edits es (update out k (some env))

unfoldable pub apply_configs :
    (Option ConfigObject → List DeviceResult → Result (List (String × List String)))
    → List Group
    → Map (List String)
    → Result (Map (List String))
unfolding merge_edits
apply_configs apply [] out = ok out
apply_configs apply (g ∷ gs) out = elim (apply g.config g.results) [
  | err e ↦ err (wrap "error applying config" [] e)
  | ok es ↦ apply_configs apply gs (merge_edits es out)
]

abbrev pub zero_device : Device
zero_device = record {
  name = "";
  attributes = empty_map;
  allow_multiple_allocations = false;
  capacities = empty_map;
}

abbrev pub or_zero : Option Device → Device
or_zero (some d) = d
or_zero none = zero_device

-- The result list of resolveNICs: every NIC, or the errors joined.
pub record Resolved : Type 0 where
  pub configs : List NicDeviceConfig
  pub errors : List Error

abbrev pub add_resolved : Result NicDeviceConfig → Resolved → Resolved
add_resolved (ok c) r = record r { configs = c ∷ r.configs }
add_resolved (err e) r = record r { errors = e ∷ r.errors }

-- The results zipped with their NICs, for the loop that builds the devices.
abbrev pub with_nics :
    List PrepItem → List NicDeviceConfig → List (PrepItem × Option NicDeviceConfig)
with_nics [] cs = []
with_nics (i ∷ is) [] = (i, none) ∷ with_nics is []
with_nics (i ∷ is) (c ∷ cs) = (i, some c) ∷ with_nics is cs

-- s.nicStore.Add(spec), if there is a store.
abbrev pub add_to : Option NicStore → Option Spec → Option NicStore
add_to none nic = none
add_to (some p) none = some p
add_to (some p) (some spec) = some (add p spec)

unfoldable pub add_nics : List PreparedDevice → Option NicStore → Option NicStore
add_nics [] store = store
add_nics (d ∷ ds) store = add_nics ds (add_to store d.nic)
