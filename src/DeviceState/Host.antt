-- ===== src/DeviceState/Host.antt =====
-- What DeviceState of cmd/kube-ovn-dra-kubeletplugin/state.go holds, and what it calls: the
-- checkpoint manager, the CDI cache, the API server and the profile, over an outside world `W`.
use kube_ovn_dra_driver.Prelude.{
  ℕ, String, ◌==◌, Bool, Option, none, some, List, [], ◌∷◌, ◌≡◌, Map, empty_map, update, Error,
  Result, ok, get_list, if◌then◌else◌,
}
use kube_ovn_dra_driver.Store.{NicStore}
use kube_ovn_dra_driver.Claim.{DeviceResult, ConfigObject}
use kube_ovn_dra_driver.Publisher.Device.{Device}
use kube_ovn_dra_driver.NicPrepare.Request.{Cluster}
use kube_ovn_dra_driver.Config.{Group}
use kube_ovn_dra_driver.Cdi.{PreparedDevice, CdiHandler, CdiSpec}

-- PreparedClaims: a Go map, as a list in some order. A file of it has the keys sorted; the host's
-- operations are taken to keep the order of the list, which no lookup of a claim depends on.
abbrev pub PreparedClaims : Type 0
PreparedClaims = List (String × List PreparedDevice)

-- resourceslice.DriverResources: the devices of the slices of each pool.
abbrev pub Resources : Type 0
Resources = Map (List Device)

-- The settings that NewDeviceState fixes. `range` and `range'` are the orders in which the two
-- loops over configResultsMap meet its entries.
pub record Settings : Type 0 where
  pub driver_name : String
  pub node_name : String
  pub is_nic : Bool
  pub cdi : CdiHandler
  pub base_request : String → String
  pub decode : String → Result ConfigObject
  pub apply_config : Option ConfigObject → List DeviceResult → Result (List (String × List String))
  pub deep_equal : Resources → Resources → Bool
  pub range : List Group → List Group
  pub range' : List Group → List Group

pub record Host (W : Type 0) : Type 0 where
  pub get_checkpoint : W → Result PreparedClaims
  pub create_checkpoint : PreparedClaims → W → Option Error × W
  pub write_spec : CdiSpec → String → W → Option Error × W
  pub remove_spec : String → W → Option Error × W
  pub enumerate : W → Result Resources
  pub cluster : W → Cluster
  pub subnet_mtu : String → W → Result ℕ
  pub subnet_ovn_dhcp : String → W → Result Bool
  -- nil unless the plugin records MACs on VMIs: namespace, name, annotation and value.
  pub annotate_vmi : Option (String → String → String → String → W → Option Error × W)

-- What the plugin relies on: a checkpoint that was written is read back, and neither the CDI cache
-- nor a patch of a VMI touches it.
pub record IsHost {W : Type 0} (h : Host W) : Type 0 where
  pub read_back :
      (p : PreparedClaims) (w : W)
      → (h.create_checkpoint p w).0 ≡ none
      → h.get_checkpoint (h.create_checkpoint p w).1 ≡ ok p
  pub get-write_spec :
      (s : CdiSpec) (name : String) (w : W)
      → h.get_checkpoint (h.write_spec s name w).1 ≡ h.get_checkpoint w
  pub get-remove_spec :
      (name : String) (w : W) → h.get_checkpoint (h.remove_spec name w).1 ≡ h.get_checkpoint w
  pub get-annotate_vmi :
      (patch : String → String → String → String → W → Option Error × W)
      (ns name key value : String) (w : W)
      → h.annotate_vmi ≡ some patch
      → h.get_checkpoint (patch ns name key value w).1 ≡ h.get_checkpoint w

pub record State (W : Type 0) : Type 0 where
  pub allocatable : Map Device
  pub driver_resources : Resources
  -- nil unless the profile is the NIC profile.
  pub nic_store : Option NicStore
  pub world : W

-- preparedClaims[uid], an insertion, and delete(preparedClaims, uid).
unfoldable pub lookup_claim : String → PreparedClaims → Option (List PreparedDevice)
lookup_claim uid [] = none
lookup_claim uid ((k, ds) ∷ p) = if k == uid then some ds else lookup_claim uid p

unfoldable pub insert_claim : String → List PreparedDevice → PreparedClaims → PreparedClaims
insert_claim uid ds [] = (uid, ds) ∷ []
insert_claim uid ds ((k, old) ∷ p) =
    if k == uid then (k, ds) ∷ p else (k, old) ∷ insert_claim uid ds p

unfoldable pub delete_claim : String → PreparedClaims → PreparedClaims
delete_claim uid [] = []
delete_claim uid ((k, ds) ∷ p) =
    let rest = delete_claim uid p in if k == uid then rest else (k, ds) ∷ rest

-- allocatableDevices: the devices of the node's pool by name.
unfoldable pub by_name : List Device → Map Device → Map Device
by_name [] out = out
by_name (d ∷ ds) out = by_name ds (update out d.name (some d))

unfoldable pub allocatable_devices : Resources → String → Map Device
unfolding by_name
allocatable_devices resources node = by_name (get_list (resources node)) empty_map
