-- ===== src/Publisher.antt =====
-- internal/publisher/subnet.go and pools.go: the devices and the pools of the kube-ovn Subnets.
-- Counts are int64 in two's complement: bit patterns below 2 ^ 64.
pub mod Counts
pub mod Device
pub mod Held
pub mod Parse
use Prim.Native.Char.{code}
use kube_ovn_dra_driver.Prelude.{
  ℕ, ◌+◌, ◌-◌, ◌^◌, ◌%◌, String, ◌<>◌, len, ◌==◌, Bool, true, false, not, ◌&&◌, ◌||◌, Option, none,
  some, List, [], ◌∷◌, ◌++◌, Map, get_text, Error, message, Result, ok, err, ltb, nat_eq,
  if◌then◌else◌,
}

-- a + b on int64.
abbrev pub add64 : ℕ → ℕ → ℕ
add64 a b = (a + b) % 2 ^ 64

-- a < b on int64: negative numbers are the patterns from 2 ^ 63 on.
abbrev pub slt64 : ℕ → ℕ → Bool
slt64 a b = ltb ((a + 2 ^ 63) % 2 ^ 64) ((b + 2 ^ 63) % 2 ^ 64)

abbrev pub min64 : ℕ → ℕ → ℕ
min64 a b = if slt64 b a then b else a

abbrev pub max64 : ℕ → ℕ → ℕ
max64 a b = if slt64 a b then b else a

abbrev pub max_count : ℕ
max_count = 2 ^ 53

pub record Family : Type 0 where
  pub enabled : Bool
  pub free : ℕ
  pub held : ℕ
  pub allocated : ℕ

-- Family.Capacity
unfoldable pub capacity : Family → ℕ
capacity f = min64 (max64 (add64 f.free f.held) 0) max_count

pub record Subnet : Type 0 where
  pub name : String
  pub uid : String
  pub provider : String
  pub vpc : String
  pub vlan_id : ℕ
  pub provider_network : String
  pub v4 : Family
  pub v6 : Family

unfoldable pub subnet_type : Subnet → String
subnet_type s = if not (nat_eq s.vlan_id 0) then "vlan" else "ovn"

-- Subnet.Exhausted
unfoldable pub exhausted : Subnet → Bool
unfolding capacity
exhausted s =
    (s.v4.enabled && nat_eq (capacity s.v4) 0) || (s.v6.enabled && nat_eq (capacity s.v6) 0)

abbrev pub family_full : Family → Bool
family_full f = f.enabled && not (slt64 f.allocated (capacity f))

-- Subnet.Full
unfoldable pub full : Subnet → Bool
unfolding capacity
full s = family_full s.v4 || family_full s.v6
