-- ===== src/NicPrepare/Request.antt =====
-- RequestIPAM of pkg/nicprepare/nicprepare.go: from a claim's allocation result to the configuration
-- of its NIC. `reads` are the reads of the pod while it waits for kube-ovn-controller.
use kube_ovn_dra_driver.Prelude.{
  ℕ, String, ◌<>◌, ◌==◌, Bool, false, ◌||◌, Option, none, some, List, [], ◌∷◌, Map, get_text, Error,
  message, wrapping, Result, ok, err, ◌>>=◌, ◌>>◌, guard, not, if◌then◌else◌,
}
use kube_ovn_dra_driver.Store.{Route}
use kube_ovn_dra_driver.Claim.{DeviceResult, ResourceClaim}
use kube_ovn_dra_driver.Attach.Routes.{NetParsers}
use kube_ovn_dra_driver.Annotation.{Pod, AllocatedNic, wait_for_allocation}
use kube_ovn_dra_driver.Publisher.Device.{Device, string_attribute}
use kube_ovn_dra_driver.NicPrepare.{PodRead, lookup_pod_for_claim, dual_stack_addresses}

pub record NicRecord : Type 0 where
  pub subnet : String
  pub provider : String

pub record NicDeviceConfig : Type 0 where
  pub device_name : String
  pub iface_name : String
  pub subnet_name : String
  pub provider : String
  pub pod_name : String
  pub pod_namespace : String
  pub pod_uid : String
  pub logical_switch_port : String
  pub ip : String
  pub extra_ips : List String
  pub mac : String
  pub cidr : String
  pub gateway : String
  pub routes : List Route
  pub vm_name : String
  pub mtu : ℕ
  pub ovn_dhcp : Bool

-- The API server and the decoders that the plugin uses.
pub record Cluster : Type 0 where
  pub net : NetParsers
  pub decimal : ℕ → String
  pub get_pod : String → PodRead
  pub pod_reads : String → List (Result Pod)
  pub decode_records : String → Result (Map NicRecord)
  pub decode_routes : String → Result (List Route)

unfoldable pub recorded_nic : Cluster → ResourceClaim → DeviceResult → Result (Option NicRecord)
recorded_nic c claim result =
    let value = get_text (claim.annotations "ovn.kubernetes.io/dra_providers") in
    if value == ""
    then ok none
    else (wrapping "invalid %s annotation of claim %s/%s"
          ("ovn.kubernetes.io/dra_providers" ∷ claim.namespace ∷ claim.name ∷ [])
          (c.decode_records value)
        >>= λ records. ok (records (result.pool <> ("/" <> result.device))))

unfoldable pub validate_secondary_provider : String → String → Option Error
validate_secondary_provider provider subnet =
    if provider == "" || provider == "ovn"
    then some (
        message
          "subnet %q uses the default provider %q and cannot be attached as a secondary NIC; set a dedicated spec.provider on the kube-ovn Subnet (e.g. %q)"
          (subnet ∷ "ovn" ∷ (subnet <> ".<namespace>.ovn") ∷ []))
    else none

-- portName: the name of the logical switch port.
unfoldable pub port_name : String → String → String → String
port_name owner namespace provider =
    if provider == "" || provider == "ovn"
    then owner <> ("." <> namespace)
    else owner <> ("." <> (namespace <> ("." <> provider)))

unfoldable pub routes_of : Cluster → String → String → AllocatedNic → Result (List Route)
routes_of c namespace pod_name alloc =
    if alloc.routes == ""
    then ok []
    else wrapping "invalid %s.kubernetes.io/routes annotation of pod %s/%s"
        (alloc.provider ∷ namespace ∷ pod_name ∷ []) (c.decode_routes alloc.routes)

-- ips[0] and ips[1:]; `dual_stack_addresses` is never empty.
abbrev pub first_text : List String → String
first_text [] = ""
first_text (x ∷ xs) = x

abbrev pub tail : List String → List String
tail [] = []
tail (x ∷ xs) = xs

unfoldable pub nic_of :
    Cluster
    → DeviceResult
    → String
    → String
    → String
    → String
    → Pod
    → AllocatedNic
    → List Route
    → NicDeviceConfig
nic_of c result iface subnet provider namespace pod alloc routes =
    let a = dual_stack_addresses c.net c.decimal alloc.ip alloc.cidr alloc.gateway in
    record {
      device_name = result.device;
      iface_name = iface;
      subnet_name = subnet;
      provider = provider;
      pod_name = pod.name;
      pod_namespace = namespace;
      pod_uid = pod.uid;
      logical_switch_port =
          port_name (if alloc.vm_name == "" then pod.name else alloc.vm_name) namespace
            alloc.provider;
      ip = first_text a.ips;
      extra_ips = tail a.ips;
      mac = alloc.mac;
      cidr = a.cidr;
      gateway = a.gateway;
      routes = routes;
      vm_name = alloc.vm_name;
      mtu = 0;
      ovn_dhcp = false;
    }

-- The Subnet and the provider: the recorded ones, else those of the device.
abbrev pub or_recorded : Option NicRecord → NicRecord → NicRecord
or_recorded none published = published
or_recorded (some r) published = r

unfoldable pub request_ipam :
    Cluster → ResourceClaim → DeviceResult → Device → String → String → Result NicDeviceConfig
unfolding recorded_nic validate_secondary_provider routes_of
request_ipam c claim result device iface node = do
  pod ←
      wrapping "find pod for claim %s/%s" (claim.namespace ∷ claim.name ∷ [])
        (lookup_pod_for_claim c.get_pod claim node)
  recorded ← recorded_nic c claim result
  let nic = or_recorded recorded (record {
    subnet = string_attribute device result.driver "subnetName";
    provider = string_attribute device result.driver "provider";
  })
  guard (not (nic.subnet == ""))
      (message "device %s has no subnetName attribute" (device.name ∷ []))
  elim (validate_secondary_provider nic.provider nic.subnet) [
    | some e ↦ err e
    | none ↦ do
      alloc ←
          wrapping
            "kube-ovn-controller did not allocate NIC %q on subnet %q for pod %s/%s (no %s.kubernetes.io/allocated or %s.%s.kubernetes.io/allocated annotation); check the pod's events and that kube-ovn-controller runs with --enable-dra-nic and --dra-nic-driver-name=%s"
            (iface ∷ nic.subnet ∷ claim.namespace ∷ pod.name ∷ nic.provider ∷ nic.provider ∷ iface
              ∷ result.driver ∷ [])
            (wait_for_allocation claim.namespace pod.name
              ((nic.provider <> ("." <> iface)) ∷ nic.provider ∷ []) (c.pod_reads pod.name))
      routes ← routes_of c claim.namespace pod.name alloc
      ok (nic_of c result iface nic.subnet nic.provider claim.namespace pod alloc routes)
  ]
