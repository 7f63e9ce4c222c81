-- ===== src/Profile.antt =====
-- internal/profiles/nic/nic.go: the NIC profile. Items of the Subnet list are `none` where the object
-- has no spec; ParseSubnet, regular expressions and strconv are parameters.
pub mod Agreement
pub mod Watch
use kube_ovn_dra_driver.Prelude.{
  ℕ, String, ◌<>◌, ◌==◌, Bool, true, false, not, ◌&&◌, ◌||◌, Option, none, some, List, [], ◌∷◌, Map,
  update, get_text, map, Error, message, wrap, wrapping, Result, ok, err, ◌>>=◌, if◌then◌else◌,
}
use kube_ovn_dra_driver.Claim.{
  DeviceResult, NicConfig, default_nic_config, normalize, ConfigObject, nic_config, other_object,
}
use kube_ovn_dra_driver.Claim
use kube_ovn_dra_driver.Publisher.{Subnet, slt64}
use kube_ovn_dra_driver.Publisher.Device.{Device, NameTools, publishable, device, ready_label}

-- The devices so far, and the map from device names to Subnets that the profile keeps.
pub record Enumerated : Type 0 where
  pub devices : Result (List Device)
  pub subnets : Map String

abbrev pub and_device : Device → Enumerated → Enumerated
and_device d e = record e { devices = e.devices >>= λ ds. ok (d ∷ ds) }

abbrev pub is_ready : Map String → Subnet → Bool
is_ready labels s =
    s.provider_network == "" || get_text (labels (ready_label s.provider_network)) == "true"

-- The loop of EnumerateDevices.
unfoldable pub enumerate_items :
    NameTools → Map String → List (Option (Result Subnet)) → Map String → Enumerated
enumerate_items t labels [] subnets = record { devices = ok []; subnets = subnets }
enumerate_items t labels (none ∷ is) subnets = enumerate_items t labels is subnets
enumerate_items t labels (some (err e) ∷ is) subnets = record { devices = err e; subnets = subnets }
enumerate_items t labels (some (ok s) ∷ is) subnets =
    let d = device t s false in
    elim (publishable s) [
      | some e ↦ enumerate_items t labels is subnets
      | none ↦
          if not (is_ready labels s)
          then enumerate_items t labels is subnets
          else and_device d (enumerate_items t labels is (update subnets d.name (some s.name)))
    ]

-- EnumerateDevices, with the results of the list and of the read of the node's labels.
unfoldable pub enumerate_devices :
    NameTools
    → String
    → Result (List (Option (Result Subnet)))
    → Result (Map String)
    → Map String
    → Enumerated
unfolding enumerate_items
enumerate_devices t node items labels subnets = elim (wrapping "list kube-ovn subnets" [] items) [
  | err e ↦ record { devices = err e; subnets = subnets }
  | ok is ↦ elim (wrapping "get node %s" (node ∷ []) labels) [
    | err e ↦ record { devices = err e; subnets = subnets }
    | ok ls ↦ enumerate_items t ls is subnets
  ]
]

-- The fields of a Subnet's spec that decide the MTU; a field of another type is zero. `mtu_float` is
-- the integer part of a positive float.
pub record MtuSpec : Type 0 where
  pub mtu : ℕ
  pub mtu_float : Option ℕ
  pub vlan : String
  pub logical_gateway : Bool
  pub u2o_interconnection : Bool

-- The label in which kube-ovn records the MTU of a ProviderNetwork. `atoi` gives the number of a
-- text, an int64, if it is one.
mtu_of_label : (String → Option ℕ) → String → String → String → Result ℕ
mtu_of_label atoi node provider value =
    let invalid : Error =
      message "invalid MTU %q of provider network %s on node %s" (value ∷ provider ∷ node ∷ []) in
    if value == "" then ok 0 else elim (atoi value) [
      | none ↦ err invalid
      | some mtu ↦ if slt64 0 mtu then ok mtu else err invalid
    ]

provider_mtu : (String → Option ℕ) → String → Result (Map String) → String → Result ℕ
unfolding mtu_of_label
provider_mtu atoi node labels provider =
    if provider == ""
    then ok 0
    else (wrapping "get node %s" (node ∷ []) labels >>= λ ls.
        mtu_of_label atoi node provider
          (get_text (ls (provider <> ".provider-network.kubernetes.io/mtu"))))

unfoldable pub subnet_mtu :
    (String → Option ℕ)
    → String
    → (String → Result MtuSpec)
    → (String → Result String)
    → Result (Map String)
    → String
    → Result ℕ
unfolding provider_mtu
subnet_mtu atoi node get_spec get_provider labels name =
    wrapping "get subnet %s" (name ∷ []) (get_spec name) >>= λ spec.
    if slt64 0 spec.mtu then ok spec.mtu else elim spec.mtu_float [
      | some mtu ↦ ok mtu
      | none ↦
          if spec.vlan == "" || (spec.logical_gateway || spec.u2o_interconnection)
          then ok 0
          else (wrapping "get vlan %s of subnet %s" (spec.vlan ∷ name ∷ []) (get_provider spec.vlan)
              >>= provider_mtu atoi node labels)
    ]

-- SubnetOVNDHCP; `get_flag` reads spec.enableDHCP of the Subnet, false if it has no such Boolean.
unfoldable pub subnet_ovn_dhcp : (String → Result Bool) → String → Result Bool
subnet_ovn_dhcp get_flag name = wrapping "get subnet %s" (name ∷ []) (get_flag name)

unfoldable pub validate_object : ConfigObject → Option Error
validate_object (nic_config c) = Claim.validate c
validate_object (other_object type) =
    some (message "expected v1alpha1.NicConfig but got: %T" (type ∷ []))

-- The name that the profile has for a device, else the device's name without its prefix.
abbrev pub subnet_name_from_device : (String → String) → Map String → String → String
subnet_name_from_device trim_prefix subnets d = elim (subnets d) [
  | some name ↦ name
  | none ↦ trim_prefix d
]

edits_for :
    (String → String)
    → (String → String)
    → Map String
    → NicConfig
    → DeviceResult
    → String × List String
edits_for env_key trim_prefix subnets c r = (
  r.request <> ("/" <> r.device),
  ("KUBE_OVN_NIC_"
        <> (env_key c.interface_name
            <> ("_SUBNET=" <> subnet_name_from_device trim_prefix subnets r.device)))
      ∷ ("KUBE_OVN_NIC_" <> (env_key c.interface_name <> ("_DEVICE=" <> r.device)))
      ∷ [],
)

unfoldable pub apply_config :
    (String → String)
    → (String → String)
    → Map String
    → Option ConfigObject
    → List DeviceResult
    → Result (List (String × List String))
unfolding edits_for
apply_config env_key trim_prefix subnets none results =
    ok (map (edits_for env_key trim_prefix subnets (normalize default_nic_config)) results)
apply_config env_key trim_prefix subnets (some (nic_config c)) results =
    ok (map (edits_for env_key trim_prefix subnets (normalize c)) results)
apply_config env_key trim_prefix subnets (some (other_object type)) results =
    err (message "runtime object is not a recognized NicConfig" [])
