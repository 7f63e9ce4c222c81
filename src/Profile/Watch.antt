-- ===== src/Profile/Watch.antt =====
-- WatchDevices and specEqual of internal/profiles/nic/nic.go: which events of the informers report a
-- change. The informers and DeepEqual are parameters.
pub mod Alike
pub mod Ignored
use kube_ovn_dra_driver.Prelude.{
  String, Bool, true, false, not, Option, none, some, List, [], ◌∷◌, Map, empty_map, map, Error,
  Result, ok, err, if◌then◌else◌,
}
use kube_ovn_dra_driver.Exec.{Exec, pure, wrapping, ◌>>=◌, ◌>>◌}
use kube_ovn_dra_driver.Publisher.{Subnet}
use kube_ovn_dra_driver.Publisher.Device.{Device, NameTools}
use kube_ovn_dra_driver.Publisher.Parse.{
  Json, Unstructured, Floats, VlanInfo, parse_vlan, parse_subnet,
}
use kube_ovn_dra_driver.Profile.{enumerate_items}

-- What EnumerateDevices reads: the list of Subnets, Vlans by name, and the labels of the node.
pub record Cluster : Type 0 where
  pub subnets : List Unstructured
  pub vlans : String → Result Unstructured
  pub labels : Map String

-- ParsePrefix and TrimSpace, which ParseSubnet calls.
pub record Parsers : Type 0 where
  pub floats : Floats
  pub trim_space : String → String
  pub prefix_is_4 : String → Option Bool

abbrev pub vlan_info : Parsers → Result Unstructured → Result VlanInfo
vlan_info p (err e) = err e
vlan_info p (ok o) = ok (parse_vlan p.floats o)

-- An item of the loop of EnumerateDevices: passed over without a spec, else parsed.
unfoldable pub item_of :
    Parsers → (String → Result VlanInfo) → Unstructured → Option (Result Subnet)
item_of p vlans o = elim o.spec [
  | none ↦ none
  | some m ↦ some (parse_subnet p.floats p.trim_space p.prefix_is_4 o vlans)
]

-- The devices that EnumerateDevices finds in a cluster that it can read.
unfoldable pub enumerated : NameTools → Parsers → Cluster → Result (List Device)
unfolding item_of
enumerated t p w =
    (enumerate_items t w.labels (map (item_of p (λ name. vlan_info p (w.vlans name))) w.subnets)
      empty_map).devices

-- equality.Semantic.DeepEqual of specs and of labels.
pub record Equality : Type 0 where
  pub specs : Option (Map Json) → Option (Map Json) → Bool
  pub labels : Map String → Map String → Bool

-- `none` stands for an object of another type, such as the last known state of a deleted one.
unfoldable pub spec_equal : Equality → Option Unstructured → Option Unstructured → Bool
spec_equal q (some o) (some n) = q.specs o.spec n.spec
spec_equal q none n = false
spec_equal q (some o) none = false

pub data Event : Type 0 where
  added deleted : Event
  updated : Option Unstructured → Option Unstructured → Event

-- The handler of Subnets and Vlans: whether it calls onChange.
unfoldable pub reports : Equality → Event → Bool
unfolding spec_equal
reports q added = true
reports q deleted = true
reports q (updated o n) = not (spec_equal q o n)

-- The handler of the node, with the labels of the old and the new object; it has no function for
-- additions and deletions.
unfoldable pub reports_node : Equality → Option (Map String) → Option (Map String) → Bool
reports_node q (some o) (some n) = not (q.labels o n)
reports_node q none n = true
reports_node q (some o) none = true

pub record Informers (W : Type 0) : Type 0 where
  -- AddEventHandler on the informer of a resource, and on that of the node
  pub add_handler : String → W → Result (Unit {0}) × W
  pub add_node_handler : W → Result (Unit {0}) × W
  pub start : W → W
  -- WaitForCacheSync, and the cause of the context where it is false
  pub wait_for_sync : W → Result (Unit {0}) × W

abbrev started : {W : Type 0} → Informers W → Exec W (Unit {0})
started i w = (ok tt, i.start w)

-- The first loop, over the resources.
unfoldable pub watch_resources : {W : Type 0} → Informers W → List String → Exec W (Unit {0})
watch_resources i [] = pure tt
watch_resources i (r ∷ rs) = wrapping "watch %s" (r ∷ []) (i.add_handler r) >> watch_resources i rs

unfoldable pub watch_devices : {W : Type 0} → Informers W → String → Exec W (Unit {0})
unfolding watch_resources
watch_devices i node = do
  watch_resources i ("subnets" ∷ "vlans" ∷ [])
  wrapping "watch node %s" (node ∷ []) i.add_node_handler
  started i
  wrapping "sync kube-ovn subnet and vlan informers" [] i.wait_for_sync
