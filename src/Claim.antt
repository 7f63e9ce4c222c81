-- ===== src/Claim.antt =====
-- The part of the Kubernetes API that the driver reads of a claim, and NicConfig of
-- api/kube-ovn.io/resource/nic/v1alpha1/api.go, the configuration that a claim can carry.
pub mod NicNames
use kube_ovn_dra_driver.Prelude.{
  ℕ, String, len, ◌==◌, Bool, false, ◌||◌, Option, none, some, List, [], ◌∷◌, Map, Error, message,
  ltb, if◌then◌else◌, nat_eq,
}
use Prim.Native.Char.{Char, code}

pub record DeviceResult : Type 0 where
  pub request : String
  pub driver : String
  pub pool : String
  pub device : String
  pub admin_access : Option Bool
  pub consumed_capacity : List (String × ℕ)

pub data ConfigSource : Type 0 where
  from_class from_claim : ConfigSource
  invalid_source : String → ConfigSource

pub record OpaqueConfig : Type 0 where
  pub driver : String
  pub raw : String

pub record AllocationConfig : Type 0 where
  pub source : ConfigSource
  pub requests : List String
  pub opaque : Option OpaqueConfig

pub record Allocation : Type 0 where
  pub results : List DeviceResult
  pub configs : List AllocationConfig

pub record ConsumerRef : Type 0 where
  pub resource : String
  pub api_group : String
  pub name : String
  pub uid : String

pub record ResourceClaim : Type 0 where
  pub uid : String
  pub namespace : String
  pub name : String
  pub annotations : Map String
  pub allocation : Option Allocation
  pub reserved_for : List ConsumerRef

pub record NicConfig : Type 0 where
  pub interface_name : String

abbrev pub default_nic_config : NicConfig
default_nic_config = record { interface_name = "net1" }

unfoldable pub normalize : NicConfig → NicConfig
normalize c = if c.interface_name == "" then record c { interface_name = "net1" } else c

-- strings.ContainsAny(name, "/: \t\n")
unfoldable pub contains_separator : String → Bool
contains_separator String.[] = false
contains_separator (String.◌∷◌ c s) =
    (nat_eq (code c) b'/'
      || (nat_eq (code c) b':'
          || (nat_eq (code c) b' ' || (nat_eq (code c) 9 || nat_eq (code c) 10))))
    || contains_separator s

unfoldable pub validate : NicConfig → Option Error
validate c =
    if c.interface_name == ""
    then none
    else if ltb 15 (len c.interface_name)
    then some
        (message "interfaceName %q is longer than %d characters" (c.interface_name ∷ "15" ∷ []))
    else if c.interface_name == "." || c.interface_name == ".."
    then some (message "interfaceName %q is not a valid interface name" (c.interface_name ∷ []))
    else if contains_separator c.interface_name
    then some
        (message "interfaceName %q must not contain '/', ':' or whitespace" (c.interface_name ∷ []))
    else none

-- runtime.Object: a decoded configuration object, a NicConfig or one of another type.
pub data ConfigObject : Type 0 where
  nic_config : NicConfig → ConfigObject
  other_object : String → ConfigObject
