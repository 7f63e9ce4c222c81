-- ===== src/DeviceState/Filled.antt =====
-- What fills the calls of Host: subnetMTU and subnetOVNDHCP of cmd/kube-ovn-dra-kubeletplugin/state.go,
-- over the methods that a profile may have, and dynamicVMIAnnotator of vmi.go.
use kube_ovn_dra_driver.Prelude.{ℕ, Bool, false, String, Option, none, some, Error, Result, ok, err}
use kube_ovn_dra_driver.DeviceState.Host.{Host}

-- SubnetMTU and SubnetOVNDHCP of the profile, if it has them.
pub record Resolvers (W : Type 0) : Type 0 where
  pub mtu : Option (String → W → Result ℕ)
  pub dhcp : Option (String → W → Result Bool)

abbrev pub subnet_mtu_by : {W : Type 0} → Resolvers W → String → W → Result ℕ
subnet_mtu_by r subnet w = elim r.mtu [ some f ↦ f subnet w | none ↦ ok 0 ]

abbrev pub subnet_ovn_dhcp_by : {W : Type 0} → Resolvers W → String → W → Result Bool
subnet_ovn_dhcp_by r subnet w = elim r.dhcp [ some f ↦ f subnet w | none ↦ ok false ]

-- dynamicVMIAnnotator, for one annotation: `marshal` gives the merge patch, and `patch` sends it to the
-- VMI of a namespace and a name.
unfoldable pub dynamic_vmi_annotator :
    {W : Type 0} (marshal : (key value : String) → Result String)
    (patch : (namespace name text : String) → W → Option Error × W)
    → (namespace name key value : String) → W
    → Option Error × W
dynamic_vmi_annotator marshal patch namespace name key value w = elim (marshal key value) [
  | err e ↦ (some e, w)
  | ok text ↦ patch namespace name text w
]

-- The host of a profile.
unfoldable pub filled :
    {W : Type 0}
    → Resolvers W
    → Option ((namespace name key value : String) → W → Option Error × W)
    → Host W
    → Host W
filled r annotate host = record host {
  subnet_mtu = subnet_mtu_by r;
  subnet_ovn_dhcp = subnet_ovn_dhcp_by r;
  annotate_vmi = annotate;
}
