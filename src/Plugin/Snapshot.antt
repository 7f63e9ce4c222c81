-- ===== src/Plugin/Snapshot.antt =====
-- snapshotter of cmd/kube-ovn-dra-kubeletplugin/publisher.go: the pools from what the stores of the
-- informers hold. An entry of a store that is not of the type asked for is `none`.
pub mod Published
use kube_ovn_dra_driver.Prelude.{
  String, Bool, true, false, Option, none, some, List, [], ◌∷◌, Map, empty_map, Error, message,
  Result, ok, err, if◌then◌else◌,
}
use kube_ovn_dra_driver.Claim.{ResourceClaim}
use kube_ovn_dra_driver.Publisher.{Subnet}
use kube_ovn_dra_driver.Publisher.Device.{NameTools, Pool, publishable, pools}
use kube_ovn_dra_driver.Publisher.Held.{IpRef, apply_held}
use kube_ovn_dra_driver.Publisher.Parse.{
  Unstructured, Floats, VlanInfo, parse_vlan, parse_ip, parse_subnet,
}
use kube_ovn_dra_driver.Plugin.Events.{Event, Updated, update_subnets}

pub record Stores : Type 0 where
  pub subnets : List (Option Unstructured)
  -- GetByKey: an error, no such object, or the object
  pub vlans : String → Result (Option (Option Unstructured))
  pub ips : List (Option Unstructured)
  pub claims : List (Option ResourceClaim)
  -- podOwners.owners: not a store of an informer, but reads of the API server behind a cache.
  pub owners : String → String → List String

-- What the code takes of other packages: float64, texts, prefixes, names, and sort.Slice by name.
pub record SnapshotTools : Type 0 where
  pub floats : Floats
  pub trim_space : String → String
  pub prefix_is_4 : String → Option Bool
  pub names : NameTools
  pub sort_by_name : List Subnet → List Subnet

pub record Snapshot : Type 0 where
  pub pools : Map Pool
  pub full_names : List String
  pub events : List Event

module _ (t : SnapshotTools) (driver_name : String) (capacity : Bool) where
  found_vlan : String → Option (Option Unstructured) → Result VlanInfo
  found_vlan name none = err (message "NotFound: vlans %q" (name ∷ []))
  found_vlan name (some none) = err (message "vlan %q has unexpected type %T" (name ∷ []))
  found_vlan name (some (some u)) = ok (parse_vlan t.floats u)

  unfoldable pub vlan_of : Stores → String → Result VlanInfo
  unfolding found_vlan
  vlan_of stores name = elim (stores.vlans name) [ err e ↦ err e | ok o ↦ found_vlan name o ]

  unfoldable pub read_subnet : Stores → Unstructured → Result Subnet
  unfolding vlan_of
  read_subnet stores u = parse_subnet t.floats t.trim_space t.prefix_is_4 u (vlan_of stores)

  -- The rest of the round for a Subnet that was read, before those of the later rounds.
  unfoldable pub keep_publishable : Result Subnet → List Subnet → List Subnet
  keep_publishable (err e) later = later
  keep_publishable (ok s) later = elim (publishable s) [ some e ↦ later | none ↦ s ∷ later ]

  -- The loop over the Subnets: what cannot be read or published is skipped.
  unfoldable pub publishable_subnets : Stores → List (Option Unstructured) → List Subnet
  unfolding keep_publishable read_subnet
  publishable_subnets stores [] = []
  publishable_subnets stores (none ∷ objs) = publishable_subnets stores objs
  publishable_subnets stores (some u ∷ objs) =
      keep_publishable (read_subnet stores u) (publishable_subnets stores objs)

  keep_ref : IpRef × Bool → List IpRef → List IpRef
  keep_ref (ref, okay) refs = if okay then ref ∷ refs else refs

  unfoldable pub ip_refs : List (Option Unstructured) → List IpRef
  unfolding keep_ref
  ip_refs [] = []
  ip_refs (none ∷ objs) = ip_refs objs
  ip_refs (some u ∷ objs) = keep_ref (parse_ip u) (ip_refs objs)

  unfoldable pub claims_of : List (Option ResourceClaim) → List ResourceClaim
  claims_of [] = []
  claims_of (none ∷ objs) = claims_of objs
  claims_of (some c ∷ objs) = c ∷ claims_of objs

  -- With capacities: the held addresses are added, and the events of full Subnets recorded.
  unfoldable pub with_held : Stores → List String → List Subnet → List Subnet × Updated
  unfolding ip_refs claims_of
  with_held stores full_names subnets =
      let held =
        apply_held t.names driver_name (ip_refs stores.ips) stores.owners (claims_of stores.claims)
          subnets in
      (held, update_subnets full_names held)

  unfoldable pub resources : Stores → List String → Snapshot
  unfolding publishable_subnets with_held
  resources stores full_names =
      let sorted = t.sort_by_name (publishable_subnets stores stores.subnets) in
      let (subnets, updated) =
        if capacity
        then with_held stores full_names sorted
        else (sorted, record { full_names = full_names; events = [] }) in
      record {
        pools = pools t.names subnets capacity empty_map;
        full_names = updated.full_names;
        events = updated.events;
      }
