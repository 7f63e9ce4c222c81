-- ===== src/DeviceState/Devices.antt =====
-- prepareDevices of cmd/kube-ovn-dra-kubeletplugin/state.go with resultsByConfig, checkAllocatable and
-- resolveNICs. resolveNICs runs its NICs in any order, here in that of the items.
pub mod Checkpointed
use kube_ovn_dra_driver.Prelude.{
  ℕ, String, ◌<>◌, ◌==◌, Bool, true, false, not, Option, none, some, List, [], ◌∷◌, ◌++◌, Map,
  empty_map, map, Error, message, wrap, join_errors, Result, ok, err, if◌then◌else◌,
}
use kube_ovn_dra_driver.Exec.{Exec, pure, lift, fail, wrapping, ◌>>=◌, ◌>>◌}
use kube_ovn_dra_driver.Store.{NicStore, Spec, remove_claim}
use kube_ovn_dra_driver.Claim.{DeviceResult, Allocation, ResourceClaim, ConfigObject}
use kube_ovn_dra_driver.Config.{OpaqueDeviceConfig, Group, get_opaque_device_configs, group_result}
use kube_ovn_dra_driver.Publisher.Device.{Device}
use kube_ovn_dra_driver.NicPrepare.Request.{NicDeviceConfig, request_ipam}
use kube_ovn_dra_driver.Cdi.{
  ApiDevice, PreparedDevice, get_claim_devices, claim_spec, versioned, claim_spec_name,
}
use kube_ovn_dra_driver.DeviceState.Host.{
  PreparedClaims, Resources, Settings, Host, State, lookup_claim, insert_claim, delete_claim,
  allocatable_devices,
}
use kube_ovn_dra_driver.DeviceState.Parts.{
  PrepItem, nic_spec_from_config, items_of, check_admin_access, check_interface_names,
  apply_configs, or_zero, Resolved, add_resolved, with_nics, add_nics,
}

-- The NIC of the device that is built for an item.
abbrev pub nic_for : String → Option NicDeviceConfig → Option Spec
nic_for claim_uid none = none
nic_for claim_uid (some c) = some (nic_spec_from_config claim_uid c)

-- GetDevices
abbrev pub get_devices : List PreparedDevice → List ApiDevice
get_devices = map (λ (d : PreparedDevice). d.device)

abbrev pub Method : Type 0 → Type 0 → Type 0
Method W A = Exec (State W) A

-- A call that returns an error or nil.
abbrev pub call : {W : Type 0} → (W → Option Error × W) → Method W (Unit {0})
call f st =
    let (e, w) = f st.world in (elim e [ none ↦ ok tt | some x ↦ err x ], record st { world = w })

abbrev pub read : {W A : Type 0} → (W → Result A) → Method W A
read f st = (f st.world, st)

module _ {W : Type 0} (s : Settings) (host : Host W) where
  unfoldable pub check_allocatable : String → Method W (Unit {0})
  check_allocatable device st = elim (st.allocatable device) [
    | some d ↦ (ok tt, st)
    | none ↦ elim (host.enumerate st.world) [
      | err e ↦ (err (wrap "enumerate devices" [] e), st)
      | ok resources ↦
          let allocatable = allocatable_devices resources s.node_name in
          (
            elim (allocatable device) [
              | some d ↦ ok tt
              | none ↦ err (message "requested device is not allocatable: %v" (device ∷ []))
            ],
            record st { allocatable = allocatable },
          )
    ]
  ]

  -- The loop of resultsByConfig.
  unfoldable pub group_results :
      List OpaqueDeviceConfig → List DeviceResult → List Group → Method W (List Group)
  group_results configs [] groups st = (ok groups, st)
  group_results configs (r ∷ rs) groups st =
      if not (r.driver == s.driver_name)
      then group_results configs rs groups st
      else ((check_allocatable r.device >> λ st'.
            group_results configs rs (group_result s.base_request configs r groups) st')
          st)

  unfoldable pub results_by_config : Allocation → Method W (List Group)
  unfolding group_results
  results_by_config a = do
    configs ←
        wrapping "error getting opaque device configs" []
          (lift (get_opaque_device_configs s.decode s.driver_name a.configs))
    group_results (record { requests = []; config = none } ∷ configs) a.results []

  -- recording the MAC on the VMI, if the plugin does and the NIC is a VM's
  annotate_mac : NicDeviceConfig → Method W (Unit {0})
  annotate_mac c = elim host.annotate_vmi [
    | none ↦ pure tt
    | some patch ↦
        if c.vm_name == ""
        then pure tt
        else wrapping "record the MAC of NIC %s on VMI %s/%s"
            (c.iface_name ∷ c.pod_namespace ∷ c.vm_name ∷ [])
            (call (patch c.pod_namespace c.vm_name ("nic.kubeovn.io/mac." <> c.iface_name) c.mac))
  ]

  -- resolveNIC, behind the read of the device's subnet and of its allocation.
  annotate_nic : NicDeviceConfig → ℕ → Bool → Method W NicDeviceConfig
  unfolding annotate_mac
  annotate_nic c mtu dhcp = annotate_mac c >>= λ _. pure (record c { mtu = mtu; ovn_dhcp = dhcp })

  resolve_dhcp : PrepItem → NicDeviceConfig → ℕ → Method W NicDeviceConfig
  unfolding annotate_nic
  resolve_dhcp it c mtu =
      wrapping "DHCP of NIC %s" (it.iface_name ∷ []) (read (host.subnet_ovn_dhcp c.subnet_name))
      >>= annotate_nic c mtu

  resolve_mtu : PrepItem → NicDeviceConfig → Method W NicDeviceConfig
  unfolding resolve_dhcp
  resolve_mtu it c =
      wrapping "MTU of NIC %s" (it.iface_name ∷ []) (read (host.subnet_mtu c.subnet_name))
      >>= resolve_dhcp it c

  unfoldable pub resolve_nic : ResourceClaim → PrepItem → Method W NicDeviceConfig
  unfolding resolve_mtu
  resolve_nic claim it st =
      (wrapping "NIC IPAM for device %s" (it.result.device ∷ []) (
            read λ w.
              request_ipam (host.cluster w) claim it.result
                (or_zero (st.allocatable it.result.device)) it.iface_name s.node_name)
          >>= resolve_mtu it)
        st

  unfoldable pub resolve_all : ResourceClaim → List PrepItem → State W → Resolved × State W
  unfolding resolve_nic
  resolve_all claim [] st = (record { configs = []; errors = [] }, st)
  resolve_all claim (it ∷ is) st =
      let (r, st') = resolve_nic claim it st in
      let (rest, st'') = resolve_all claim is st' in (add_resolved r rest, st'')

  unfoldable pub resolve_nics : ResourceClaim → List PrepItem → Method W (List NicDeviceConfig)
  unfolding resolve_all
  resolve_nics claim items st =
      let (r, st') = resolve_all claim items st in
      (elim (join_errors r.errors) [ none ↦ ok r.configs | some e ↦ err e ], st')

  -- One device of the claim.
  unfoldable pub prepared_device :
      ResourceClaim → Map (List String) → PrepItem × Option NicDeviceConfig → PreparedDevice
  prepared_device claim edits (it, nic) = record {
    device = record {
      request_names = it.result.request ∷ [];
      pool_name = it.result.pool;
      device_name = it.result.device;
      cdi_device_ids = get_claim_devices s.cdi claim.uid it.result.request it.result.device;
    };
    container_edits = edits (it.result.request <> ("/" <> it.result.device));
    admin_access = check_admin_access claim;
    nic = nic_for claim.uid nic;
  }

  -- The NICs of the items, where the plugin is the NIC plugin.
  nics_of : ResourceClaim → List PrepItem → Method W (List NicDeviceConfig)
  unfolding resolve_nics
  nics_of claim items st =
      if s.is_nic
      then elim (check_interface_names st.nic_store claim
          (map (λ (i : PrepItem). i.iface_name) items)) [
            | some e ↦ (err e, st)
            | none ↦ resolve_nics claim items st
          ]
      else (ok [], st)

  -- The last loop of prepareDevices: the devices, and the NICs that the store gets.
  build_devices :
      ResourceClaim
      → Map (List String)
      → List PrepItem
      → List NicDeviceConfig
      → Method W (List PreparedDevice)
  unfolding prepared_device
  build_devices claim edits items nics st =
      let devices = map (prepared_device claim edits) (with_nics items nics) in
      (ok devices, record st { nic_store = add_nics devices st.nic_store })

  unfoldable pub prepare_devices : ResourceClaim → Method W (List PreparedDevice)
  unfolding nics_of build_devices
  prepare_devices claim = elim claim.allocation [
    | none ↦ fail (message "claim not yet allocated" [])
    | some a ↦ do
      groups ← results_by_config a
      edits ← lift (apply_configs s.apply_config (s.range groups) empty_map)
      let items = items_of s.is_nic (s.range' groups)
      nics ← nics_of claim items
      build_devices claim edits items nics
  ]
