-- ===== src/Witnesses/Plugin.antt =====
-- The properties of DeviceState at a concrete claim, on a host whose world is the checkpoint.
use kube_ovn_dra_driver.Prelude.{
  true, false, none, some, List, [], ◌∷◌, ◌≡◌, ◌↔◌, refl, All, Option, Result, ok, err, message,
  empty_map, update,
}
use kube_ovn_dra_driver.Store.{Spec, NicStore, new_nic_store, specs, add}
use kube_ovn_dra_driver.Publisher.Device.{Device, text, string_attribute}
use kube_ovn_dra_driver.NicPrepare.{
  found, lookup_pod_for_claim, gather, check_shared_claim, by_family, cut_before,
  dual_stack_addresses, first_stranger, has_char, split, with_mask,
}
use kube_ovn_dra_driver.NicPrepare.Request.{
  Cluster, request_ipam, nic_of, port_name, recorded_nic, routes_of, validate_secondary_provider,
}
use kube_ovn_dra_driver.Cdi.{
  ApiDevice, CdiHandler, claim_device_name, claim_spec, versioned, claim_spec_name,
  get_claim_devices,
}
use kube_ovn_dra_driver.DeviceState.Host.{
  PreparedClaims, Resources, Settings, Host, IsHost, State, lookup_claim, insert_claim,
  allocatable_devices, by_name,
}
use kube_ovn_dra_driver.DeviceState.Parts.{
  check_interface_names, apply_configs, items_of, add_nics, check_admin_access, first_repeated,
  first_taken, merge_edits, nic_spec_from_config, taken_by_pods,
}
use kube_ovn_dra_driver.DeviceState.Parts.Interfaces.{
  IsDistinct, IsClear, check_interface_names_iff,
}
use kube_ovn_dra_driver.DeviceState.Actions.{prepare, create_claim_spec_file}
use kube_ovn_dra_driver.DeviceState.Devices.{
  results_by_config, check_allocatable, group_results, prepare_devices, prepared_device,
  resolve_all, resolve_nic, resolve_nics,
}
use kube_ovn_dra_driver.DeviceState.Actions.Recorded.{recorded, latest, newer}
use kube_ovn_dra_driver.DeviceState.Actions.Idempotent.{prepare_twice}
use kube_ovn_dra_driver.Config.{
  get_opaque_device_configs, group_result, config_matches_request, add_result, decode_configs,
  last_match, split_sources,
}
use kube_ovn_dra_driver.Annotation.{wait_for_allocation, extract_allocation, first_allocation, poll}
use kube_ovn_dra_driver.Witnesses.Data.{nic, two_nics, web_claim, web, decode, small_net}

check_interface_names_iff_example :
    (check_interface_names (some two_nics) web_claim ("net1" ∷ []) ≡ none) ↔ (
      IsDistinct ("net1" ∷ [])
      × All (IsClear two_nics web_claim.uid ("net1" ∷ [])) web_claim.reserved_for)
check_interface_names_iff_example = check_interface_names_iff two_nics web_claim ("net1" ∷ [])

abbrev cdi_handler : CdiHandler
cdi_handler = record {
  tools = record {
    minimum_version = λ spec. ok "0.5.0";
    transient_name = λ v c uid. uid;
    name_for_spec = λ spec name. ok name;
    qualified_name = λ v c n. n;
    dashed = λ s. s;
    upper_word = λ s. s;
    to_upper = λ s. s;
    print_bool = λ b. "false";
  };
  driver_name = "nic.kubeovn.io";
  class = "nic";
}

abbrev pub settings : Settings
settings = record {
  driver_name = "nic.kubeovn.io";
  node_name = "node1";
  is_nic = true;
  cdi = cdi_handler;
  base_request = λ r. r;
  decode = decode;
  apply_config = λ c rs. ok [];
  deep_equal = λ a b. false;
  range = λ gs. gs;
  range' = λ gs. gs;
}

abbrev one_pod : Cluster
one_pod = record {
  net = small_net;
  decimal = λ n. "24";
  get_pod = λ name. found web;
  pod_reads = λ name. ok web ∷ [];
  decode_records = λ s. ok empty_map;
  decode_routes = λ s. ok [];
}

abbrev pub sub_device : Device
sub_device = record {
  name = "sub";
  attributes =
      update (update empty_map "subnetName" (some (text "office"))) "provider" (some (text "sub"));
  allow_multiple_allocations = true;
  capacities = empty_map;
}

abbrev pub node_resources : Resources
node_resources = update empty_map "node1" (some (sub_device ∷ []))

-- The checkpoint on the disk, if there is one.
abbrev pub Disk : Type 0
Disk = Option PreparedClaims

abbrev read_disk : Disk → Result PreparedClaims
read_disk none = err (message "checkpoint is not found" [])
read_disk (some p) = ok p

abbrev pub host : Host Disk
host = record {
  get_checkpoint = read_disk;
  create_checkpoint = λ p w. (none, some p);
  write_spec = λ s name w. (none, w);
  remove_spec = λ name w. (none, w);
  enumerate = λ w. ok node_resources;
  cluster = λ w. one_pod;
  subnet_mtu = λ s w. ok 1400;
  subnet_ovn_dhcp = λ s w. ok false;
  annotate_vmi = none;
}

pub host-IsHost : IsHost host
host-IsHost = record {
  read_back = λ p w h. refl;
  get-write_spec = λ s name w. refl;
  get-remove_spec = λ name w. refl;
  get-annotate_vmi = λ patch ns name key value w h. cc h;
}

abbrev pub fresh : State Disk
fresh = record {
  allocatable = update empty_map "sub" (some sub_device);
  driver_resources = node_resources;
  nic_store = some new_nic_store;
  world = some [];
}

abbrev pub after_prepare : State Disk
after_prepare = (prepare settings host web_claim fresh).1

abbrev pub one_device : List ApiDevice
one_device =
    record {
      request_names = "nic" ∷ [];
      pool_name = "node1";
      device_name = "sub";
      cdi_device_ids = "common" ∷ "u1-nic-sub" ∷ [];
    }
    ∷ []

abbrev claims_on : Disk → PreparedClaims
claims_on none = []
claims_on (some p) = p

abbrev pub after_claims : PreparedClaims
after_claims = claims_on after_prepare.world

-- The NIC of the claim in the checkpoint.
abbrev pub web_nic : Spec
web_nic = record (nic "u1" "net1") {
  netns_path = "";
  container_id = "";
  gateway = "";
  ip = "10.1.0.5";
  provider = "sub";
}

abbrev store_of : Option NicStore → NicStore
store_of none = new_nic_store
store_of (some p) = p

abbrev pub after_store : NicStore
after_store = store_of after_prepare.nic_store

pub prepared_facts :
    (prepare settings host web_claim fresh ≡ (ok one_device, after_prepare))
    × (host.get_checkpoint after_prepare.world ≡ ok after_claims)
    × (recorded (lookup_claim "u1" after_claims) "p1" "u1" "net1" none ≡ some web_nic)
    × (after_prepare.nic_store ≡ some after_store)
    × (specs after_store "p1" ≡ web_nic ∷ [])
unfolding lookup_claim insert_claim allocatable_devices by_name results_by_config check_allocatable
    group_results prepare_devices prepared_device resolve_all resolve_nic resolve_nics apply_configs
    items_of add_nics check_admin_access first_repeated first_taken merge_edits nic_spec_from_config
    taken_by_pods check_interface_names get_opaque_device_configs group_result
    config_matches_request add_result decode_configs last_match split_sources specs add request_ipam
    lookup_pod_for_claim gather check_shared_claim nic_of port_name recorded_nic routes_of
    validate_secondary_provider by_family cut_before dual_stack_addresses first_stranger has_char
    split with_mask string_attribute wait_for_allocation extract_allocation first_allocation poll
    claim_device_name claim_spec versioned claim_spec_name create_claim_spec_file get_claim_devices
    prepare recorded latest newer
prepared_facts = (refl, refl, refl, refl, refl)

pub prepared_once : prepare settings host web_claim fresh ≡ (ok one_device, after_prepare)
prepared_once = prepared_facts.0

prepare_twice_example :
    prepare settings host web_claim after_prepare ≡ (ok one_device, after_prepare)
prepare_twice_example =
    prepare_twice settings host host-IsHost web_claim fresh after_prepare one_device prepared_once
