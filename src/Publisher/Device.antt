-- ===== src/Publisher/Device.antt =====
-- Device, DeviceName and Publishable of internal/publisher/subnet.go and the pools of
-- internal/publisher/pools.go.
pub mod Pools
use Prim.Native.String.{slice}
use kube_ovn_dra_driver.Prelude.{
  ℕ, ◌-◌, String, ◌<>◌, len, ◌==◌, Bool, true, false, not, ◌&&◌, ◌||◌, Option, none, some, List, [],
  ◌∷◌, Map, empty_map, update, Error, message, ltb, leb, nat_eq, if◌then◌else◌,
}
use kube_ovn_dra_driver.NicPrepare.{split}
use kube_ovn_dra_driver.Publisher.{Family, Subnet, capacity, subnet_type, exhausted}

-- resourceapi.DeviceAttribute: a string or an integer.
pub data Attribute : Type 0 where
  text : String → Attribute
  integer : ℕ → Attribute

pub record Device : Type 0 where
  pub name : String
  pub attributes : Map Attribute
  pub allow_multiple_allocations : Bool
  -- Without the RequestPolicy, which is the same for every capacity: default and only value 1.
  pub capacities : Map ℕ

-- What DeviceName calls: validation.IsDNS1123Label, the first twelve hexadecimal digits of the
-- SHA-256 sum, the lower-cased name with its other characters replaced by dashes and trimmed, and
-- strings.TrimRight of dashes.
pub record NameTools : Type 0 where
  pub is_dns_label : String → Bool
  pub hash : String → String
  pub dashed : String → String
  pub trim_right : String → String

unfoldable pub device_name : NameTools → String → String
device_name t subnet =
    if t.is_dns_label ("subnet-" <> subnet)
    then "subnet-" <> subnet
    else (let room = 63 - 7 - len (t.hash subnet) - 1 in
        let dashed = t.dashed subnet in
        let base =
          t.trim_right (slice dashed 0 (if leb (len dashed) room then len dashed else room)) in
        if base == ""
        then "subnet-" <> t.hash subnet
        else "subnet-" <> (base <> ("-" <> t.hash subnet)))

-- strings.Split(provider, ".") has three parts, the last "ovn".
abbrev pub is_three_ovn : List String → Bool
is_three_ovn (a ∷ b ∷ c ∷ []) = c == "ovn"
is_three_ovn _ = false

unfoldable pub is_ovn_provider : String → Bool
is_ovn_provider provider = is_three_ovn (split b'.' provider)

unfoldable pub publishable : Subnet → Option Error
publishable s =
    if s.provider == "" || s.provider == "ovn"
    then some (
        message
          "subnet %q uses the default provider; a DRA NIC needs a dedicated provider such as %q"
          (s.name ∷ (s.name <> ".<namespace>.ovn") ∷ []))
    else if not (is_ovn_provider s.provider)
    then some (
        message "subnet %q uses the non-OVN provider %q, which the DRA NIC driver does not support"
          (s.name ∷ s.provider ∷ []))
    else if not s.v4.enabled && not s.v6.enabled
    then some
        (message "subnet %q has no IPv4 or IPv6 CIDR; a DRA NIC needs an address" (s.name ∷ []))
    else if ltb 64 (len s.name)
    then some (message "subnet %q is longer than the %d bytes of a device attribute" (s.name ∷ []))
    else none

-- A string attribute of the second loop of Device: left out if empty or longer than 64 bytes.
unfoldable pub with_attribute : String → String → Map Attribute → Map Attribute
with_attribute name value attrs =
    if value == "" || ltb 64 (len value) then attrs else update attrs name (some (text value))

with_capacity_of : String → Family → Map ℕ → Map ℕ
with_capacity_of name f out = if f.enabled then update out name (some (capacity f)) else out

unfoldable pub capacities : Subnet → Map ℕ
unfolding with_capacity_of
capacities s = with_capacity_of "ipv6" s.v6 (with_capacity_of "ipv4" s.v4 empty_map)

attributes : Subnet → Map Attribute
unfolding with_attribute
attributes s =
    let base =
      update (update empty_map "subnetName" (some (text s.name))) "subnetType"
        (some (text (subnet_type s))) in
    let vlan =
      if nat_eq s.vlan_id 0 then base else update base "vlanId" (some (integer s.vlan_id)) in
    with_attribute "vpc" s.vpc (
      with_attribute "providerNetwork" s.provider_network
        (with_attribute "provider" s.provider vlan))

unfoldable pub device : NameTools → Subnet → Bool → Device
unfolding attributes capacities
device t s with_capacity = record {
  name = device_name t s.name;
  attributes = attributes s;
  allow_multiple_allocations = true;
  capacities = if with_capacity then capacities s else empty_map;
}

-- StringAttribute: the attribute under its name, else under the name qualified with the driver.
abbrev pub text_of : Option Attribute → Option String
text_of (some (text s)) = some s
text_of _ = none

unfoldable pub string_attribute : Device → String → String → String
string_attribute d driver name = elim (text_of (d.attributes name)) [
  | some s ↦ s
  | none ↦ elim (text_of (d.attributes (driver <> ("/" <> name)))) [ some s ↦ s | none ↦ "" ]
]

pub record Pool : Type 0 where
  pub devices : List Device
  -- The label that a node must have with the value "true", if the pool selects nodes.
  pub node_label : Option String

abbrev pub ready_label : String → String
ready_label provider_network = provider_network <> ".provider-network.kubernetes.io/ready"

unfoldable pub pool : NameTools → Subnet → Bool → Pool
pool t s with_capacity = record {
  devices = if not with_capacity || not (exhausted s) then device t s with_capacity ∷ [] else [];
  node_label = if s.provider_network == "" then none else some (ready_label s.provider_network);
}

-- The loop of Pools: a later Subnet of the same name would overwrite the pool.
unfoldable pub pools : NameTools → List Subnet → Bool → Map Pool → Map Pool
pools t [] with_capacity out = out
pools t (s ∷ ss) with_capacity out =
    pools t ss with_capacity (update out s.name (some (pool t s with_capacity)))
