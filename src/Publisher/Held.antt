-- ===== src/Publisher/Held.antt =====
-- internal/publisher/held.go: the addresses that allocated claims hold. `owners` is the OwnersOf of
-- the caller; a Go map by Subnet name is a list in the order of insertion, since each entry changes
-- another Subnet.
pub mod Recount
use kube_ovn_dra_driver.Prelude.{
  ℕ, ◌+◌, String, ◌==◌, Bool, true, false, not, ◌&&◌, Option, none, some, List, [], ◌∷◌, ◌++◌, map,
  contains, is_empty, if◌then◌else◌,
}
use kube_ovn_dra_driver.Claim.{DeviceResult, Allocation, ConsumerRef, ResourceClaim}
use kube_ovn_dra_driver.Publisher.{Family, Subnet, add64, min64}
use kube_ovn_dra_driver.Publisher.Device.{NameTools, device_name}

pub record IpRef : Type 0 where
  pub namespace : String
  pub name : String
  pub subnet : String

abbrev pub has_key : String → String → String → IpRef → Bool
has_key namespace name subnet ip =
    ip.namespace == namespace && (ip.name == name && ip.subnet == subnet)

-- addresses[key]: how many ip objects have the key.
unfoldable pub addresses : List IpRef → String → String → String → ℕ
addresses [] namespace name subnet = 0
addresses (ip ∷ ips) namespace name subnet =
    let rest = addresses ips namespace name subnet in
    if has_key namespace name subnet ip then add64 rest 1 else rest

pub record Use : Type 0 where
  pub v4 : ℕ
  pub v6 : ℕ

-- q.Value() of the entry of ConsumedCapacity, or 0.
unfoldable pub quantity : String → List (String × ℕ) → ℕ
quantity name [] = 0
quantity name ((k, q) ∷ qs) = if k == name then q else quantity name qs

unfoldable pub consumed : DeviceResult → Subnet → Use
unfolding quantity
consumed r s =
    if not (is_empty r.consumed_capacity)
    then record {
      v4 = quantity "ipv4" r.consumed_capacity;
      v6 = quantity "ipv6" r.consumed_capacity;
    }
    else record { v4 = if s.v4.enabled then 1 else 0; v6 = if s.v6.enabled then 1 else 0 }

-- byName[name]: the last Subnet of the name.
unfoldable pub last_named : String → List Subnet → Option Subnet
last_named name [] = none
last_named name (s ∷ ss) =
    let later = last_named name ss in
    elim later [ some x ↦ some x | none ↦ if s.name == name then some s else none ]

-- A change of the Subnet that byName[name] points to.
unfoldable pub change_named : String → (Subnet → Subnet) → List Subnet → List Subnet
change_named name f [] = []
change_named name f (s ∷ ss) =
    let later = change_named name f ss in
    elim (last_named name ss) [
      | some x ↦ s ∷ later
      | none ↦ if s.name == name then f s ∷ ss else s ∷ ss
    ]

-- perSubnet[name] += use
unfoldable pub add_use : String → Use → List (String × Use) → List (String × Use)
add_use name u [] = (name, u) ∷ []
add_use name u ((k, old) ∷ us) =
    let rest = add_use name u us in
    if k == name
    then (k, record { v4 = add64 old.v4 u.v4; v6 = add64 old.v6 u.v6 }) ∷ us
    else (k, old) ∷ rest

-- have: the addresses of the names, each name once.
unfoldable pub owned : (String → ℕ) → List String → List String → ℕ → ℕ
owned count seen [] have = have
owned count seen (name ∷ names) have =
    if contains seen name
    then owned count seen names have
    else owned count (name ∷ seen) names (add64 have (count name))

abbrev pub reset_family : Family → Family
reset_family f = record f { held = 0; allocated = 0 }

unfoldable pub reset : Subnet → Subnet
reset s = record s { v4 = reset_family s.v4; v6 = reset_family s.v6 }

abbrev pub charge_family : ℕ → ℕ → Family → Family
charge_family u have f = record f {
  held = add64 f.held (min64 u have);
  allocated = add64 f.allocated u;
}

unfoldable pub charge : Use → ℕ → Subnet → Subnet
charge u have s = record s { v4 = charge_family u.v4 have s.v4; v6 = charge_family u.v6 have s.v6 }

module _ (t : NameTools) (driver : String) (ips : List IpRef)
    (owners : String → String → List String) where
  -- One round of the loop over the results of a claim.
  use_result : List Subnet → DeviceResult → List (String × Use) → List (String × Use)
  use_result subnets r uses =
      if not (r.driver == driver) then uses else elim (last_named r.pool subnets) [
        | none ↦ uses
        | some s ↦
            if r.device == device_name t s.name then add_use s.name (consumed r s) uses else uses
      ]

  unfoldable pub uses_of :
      List Subnet → List DeviceResult → List (String × Use) → List (String × Use)
  unfolding use_result
  uses_of subnets [] uses = uses
  uses_of subnets (r ∷ rs) uses = uses_of subnets rs (use_result subnets r uses)

  unfoldable pub names_of : String → List ConsumerRef → List String
  names_of namespace [] = []
  names_of namespace (ref ∷ refs) =
      let rest = names_of namespace refs in
      if ref.resource == "pods" then owners namespace ref.name ++ rest else rest

  -- The loop over perSubnet.
  unfoldable pub charge_all : String → List String → List (String × Use) → List Subnet → List Subnet
  charge_all namespace names [] subnets = subnets
  charge_all namespace names ((name, u) ∷ us) subnets =
      let have = owned (λ owner. addresses ips namespace owner name) [] names 0 in
      charge_all namespace names us (change_named name (charge u have) subnets)

  unfoldable pub charge_claim : ResourceClaim → List Subnet → List Subnet
  unfolding charge_all uses_of
  charge_claim claim subnets = elim claim.allocation [
    | none ↦ subnets
    | some a ↦
        charge_all claim.namespace (names_of claim.namespace claim.reserved_for)
          (uses_of subnets a.results []) subnets
  ]

  unfoldable pub charge_claims : List ResourceClaim → List Subnet → List Subnet
  charge_claims [] subnets = subnets
  charge_claims (c ∷ cs) subnets = charge_claims cs (charge_claim c subnets)

  unfoldable pub apply_held : List ResourceClaim → List Subnet → List Subnet
  unfolding charge_claims reset
  apply_held claims subnets = charge_claims claims (map reset subnets)
