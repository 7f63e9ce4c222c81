-- ===== src/Publisher/Parse.antt =====
-- ParseVlan, ParseSubnet and statusCount of internal/publisher/subnet.go, and ParseIP of held.go. An
-- object is given by what the accessors of the package unstructured return for it.
pub mod Counters
use kube_ovn_dra_driver.Prelude.{
  ℕ, String, ◌==◌, Bool, true, false, not, ◌&&◌, ◌||◌, Option, none, some, List, [], ◌∷◌, Map,
  Error, message, wrap, Result, ok, err, ltb, nat_eq, if◌then◌else◌,
}
use kube_ovn_dra_driver.NicPrepare.{split}
use kube_ovn_dra_driver.Publisher.{Family, Subnet, min64, max64, max_count}
use kube_ovn_dra_driver.Publisher.Held.{IpRef}

-- The types that the type switches tell apart: integers as 64-bit patterns, float64 by its bits.
pub data Json : Type 0 where
  int64 int float : ℕ → Json
  text : String → Json
  other : Json

pub record Unstructured : Type 0 where
  pub name : String
  pub uid : String
  -- `none` where the object has no map of that name
  pub spec : Option (Map Json)
  pub status : Option (Map Json)

-- float64 and fmt.Sscan.
pub record Floats : Type 0 where
  pub is_nan : ℕ → Bool
  pub is_negative : ℕ → Bool
  pub is_large : ℕ → Bool
  pub to_int64 : ℕ → ℕ
  pub min_large : ℕ → ℕ
  pub scan : String → Option ℕ

-- value, _ := m[key].(string), "" for a nil map
abbrev pub text_value : Option Json → String
text_value (some (text s)) = s
text_value _ = ""

abbrev pub entry : Option (Map Json) → String → Option Json
entry none key = none
entry (some m) key = m key

abbrev pub text_at : Option (Map Json) → String → String
text_at m key = text_value (entry m key)

unfoldable pub parse_ip : Unstructured → IpRef × Bool
parse_ip obj =
    let ref : IpRef = record {
      name = text_at obj.spec "podName";
      namespace = text_at obj.spec "namespace";
      subnet = text_at obj.spec "subnet";
    } in
    (ref, not (ref.name == "") && not (ref.subnet == ""))

pub record VlanInfo : Type 0 where
  pub id : ℕ
  pub provider : String

module _ (f : Floats) where
  vlan_id_value : Option Json → ℕ
  vlan_id_value (some (int64 n)) = n
  vlan_id_value (some (float x)) = f.to_int64 x
  vlan_id_value _ = 0

  unfoldable pub parse_vlan : Unstructured → VlanInfo
  unfolding vlan_id_value
  parse_vlan obj = record {
    id = vlan_id_value (entry obj.spec "id");
    provider = text_at obj.spec "provider";
  }

  abbrev bounded : ℕ → ℕ
  bounded n = min64 (max64 n 0) max_count

  scanned_count : Option ℕ → ℕ
  scanned_count none = 0
  scanned_count (some x) =
      if f.is_negative x then 0 else min64 (f.to_int64 (f.min_large x)) max_count

  -- The type switch of statusCount.
  count_value : Option Json → ℕ
  unfolding scanned_count
  count_value (some (int64 n)) = bounded n
  count_value (some (int n)) = bounded n
  count_value (some (float x)) =
      if f.is_nan x || f.is_negative x then 0 else if f.is_large x then max_count else f.to_int64 x
  count_value (some (text s)) = scanned_count (f.scan s)
  count_value _ = 0

  unfoldable pub status_count : Unstructured → String → ℕ
  unfolding count_value
  status_count obj field = count_value (entry obj.status field)

  -- strings.TrimSpace, and whether netip.ParsePrefix gives an IPv4 or an IPv6 prefix.
  module _ (trim_space : String → String) (prefix_is_4 : String → Option Bool) where
    -- The loop over the CIDRs: which families are enabled.
    unfoldable pub enabled_families : List String → Bool × Bool
    enabled_families [] = (false, false)
    enabled_families (part ∷ parts) =
        let (v4, v6) = enabled_families parts in
        elim (prefix_is_4 (trim_space part)) [
          | none ↦ (v4, v6)
          | some b ↦ if b then (true, v6) else (v4, true)
        ]

    family_of : Bool → ℕ → Family
    family_of enabled free = record { enabled = enabled; free = free; held = 0; allocated = 0 }

    -- The Subnet with its VLAN, as the code builds it.
    built : Unstructured → Option (Map Json) → VlanInfo → Subnet
    unfolding enabled_families family_of status_count
    built obj spec vlan =
        let (v4, v6) = enabled_families (split b',' (text_at spec "cidrBlock")) in
        record {
          name = obj.name;
          uid = obj.uid;
          provider = text_at spec "provider";
          vpc = text_at spec "vpc";
          vlan_id = vlan.id;
          provider_network = if nat_eq vlan.id 0 then "" else vlan.provider;
          v4 = family_of v4 (status_count obj "v4availableIPs");
          v6 = family_of v6 (status_count obj "v6availableIPs");
        }

    parse_spec : Unstructured → Option (Map Json) → (String → Result VlanInfo) → Result Subnet
    unfolding built
    parse_spec obj spec vlans =
        let vlan_name = text_at spec "vlan" in
        if vlan_name == ""
        then ok (built obj spec (record { id = 0; provider = "" }))
        else elim (vlans vlan_name) [
          | err e ↦ err (wrap "get vlan %q referenced by subnet %q" (vlan_name ∷ obj.name ∷ []) e)
          | ok vlan ↦ ok (built obj spec vlan)
        ]

    unfoldable pub parse_subnet : Unstructured → (String → Result VlanInfo) → Result Subnet
    unfolding parse_spec
    parse_subnet obj vlans = elim obj.spec [
      | none ↦ err (message "subnet %q has no spec" (obj.name ∷ []))
      | some m ↦ parse_spec obj (some m) vlans
    ]
