-- ===== src/Witnesses/Data.antt =====
-- Test data: a pod's NICs, claims, pods and addresses.
use kube_ovn_dra_driver.Prelude.{
  String, ◌==◌, false, none, some, [], ◌∷◌, empty_map, update, Result, ok, if◌then◌else◌,
}
use kube_ovn_dra_driver.Store.{Route, Spec, NicStore, new_nic_store, add, mark_attached}
use kube_ovn_dra_driver.Claim.{
  DeviceResult, from_claim, AllocationConfig, ResourceClaim, ConfigObject, nic_config,
}
use kube_ovn_dra_driver.Annotation.{Pod, running}
use kube_ovn_dra_driver.Attach.Routes.{v4, NetParsers}

abbrev pub nic : String → String → Spec
nic claim iface = record {
  pod_uid = "p1";
  pod_name = "web";
  pod_namespace = "default";
  claim_uid = claim;
  netns_path = "/run/netns/a";
  iface_name = iface;
  ip = "10.1.0.5/24";
  extra_ips = [];
  mac = "0a:58:0a:01:00:05";
  gateway = "10.1.0.1";
  routes = [];
  mtu = 1400;
  container_id = "c1";
  provider = "sub.default.ovn";
  iface_id = "web.default.sub";
  kube_virt_vmi = false;
  ovn_dhcp = false;
}

abbrev pub two_nics : NicStore
two_nics = add (add new_nic_store (nic "u1" "net1")) (nic "u2" "net2")

abbrev pub attached_nics : NicStore
attached_nics = mark_attached two_nics "p1" (nic "u1" "net1")

-- net.ParseCIDR and net.ParseIP on one network and one address.
abbrev pub small_net : NetParsers
small_net = record {
  parse_cidr =
      λ s. if s == "10.2.0.0/16" then some (record { ip = v4 10 2 0 0; ones = 16 }) else none;
  parse_ip = λ s. if s == "10.1.0.1" then some (v4 10 1 0 1) else none;
}

abbrev pub to_office : Route
to_office = record { destination = "10.2.0.0/16"; gateway = "10.1.0.1" }

abbrev pub net_config : String → AllocationConfig
net_config raw = record {
  source = from_claim;
  requests = "nic" ∷ [];
  opaque = some (record { driver = "nic.kubeovn.io"; raw = raw });
}

abbrev pub decode : String → Result ConfigObject
decode raw = ok (nic_config (record { interface_name = raw }))

abbrev pub web_result : DeviceResult
web_result = record {
  request = "nic";
  driver = "nic.kubeovn.io";
  pool = "node1";
  device = "sub";
  admin_access = none;
  consumed_capacity = [];
}

abbrev pub web_claim : ResourceClaim
web_claim = record {
  uid = "u1";
  namespace = "default";
  name = "web-nic";
  annotations = empty_map;
  allocation = some (record { results = web_result ∷ []; configs = net_config "net1" ∷ [] });
  reserved_for = record { resource = "pods"; api_group = ""; name = "web"; uid = "p1" } ∷ [];
}

abbrev pub web : Pod
web = record {
  name = "web";
  uid = "p1";
  node_name = "node1";
  phase = running;
  labels = empty_map;
  annotations =
      update
        (update (update empty_map "sub.kubernetes.io/allocated" (some "true"))
          "sub.kubernetes.io/ip_address" (some "10.1.0.5"))
        "sub.kubernetes.io/mac_address" (some "0a:58:0a:01:00:05");
}
