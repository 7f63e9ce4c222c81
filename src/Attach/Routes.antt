-- ===== src/Attach/Routes.antt =====
-- Route.parse of pkg/plumbing/plumbing.go. The parsers of the package net are parameters.
use kube_ovn_dra_driver.Prelude.{
  ℕ, String, ◌==◌, Bool, true, false, not, Option, none, some, List, [], ◌∷◌, ◌≡◌, ◌≢◌, ◌⊎◌, arith,
  message, Result, ok, err, if◌then◌else◌, nat_eq, eq_iff,
}
use kube_ovn_dra_driver.Store.{Route}

-- net.IP: To4 gives the four bytes of an IPv4 address, and nil for another.
pub data Ip : Type 0 where
  v4 : ℕ → ℕ → ℕ → ℕ → Ip
  v6 : List ℕ → Ip

abbrev pub is_v4 : Ip → Bool
is_v4 (v4 a b c d) = true
is_v4 (v6 bs) = false

-- The network of net.ParseCIDR, with the number of ones of its mask.
pub record IpNet : Type 0 where
  pub ip : Ip
  pub ones : ℕ

-- net.ParseCIDR and net.ParseIP.
pub record NetParsers : Type 0 where
  pub parse_cidr : String → Option IpNet
  pub parse_ip : String → Option Ip

abbrev pub same_family : Ip → Ip → Bool
same_family (v4 a b c d) ip = is_v4 ip
same_family (v6 bs) ip = not (is_v4 ip)

abbrev pub GatewayFits : IpNet → Option Ip → Type 0
GatewayFits dst none = Unit {0}
GatewayFits dst (some gw) = same_family gw dst.ip ≡ true

module _ (net : NetParsers) where
  -- The part of parse behind `gateway == ""`, for a gateway that is there.
  with_gateway : Route → IpNet → String → Result (IpNet × Option Ip)
  with_gateway r dst gateway = elim (net.parse_ip gateway) [
    | none ↦ err (message "parse gateway %q of route %q" (gateway ∷ r.destination ∷ []))
    | some gw ↦
        if same_family gw dst.ip
        then ok (dst, some gw)
        else if r.gateway == ""
        then ok (dst, none)
        else err (
            message "gateway %q of route %q is of another IP family"
              (r.gateway ∷ r.destination ∷ []))
  ]

  parse_to : Route → String → IpNet → Result (IpNet × Option Ip)
  unfolding with_gateway
  parse_to r default_gateway dst =
      if nat_eq dst.ones 0
      then err
          (message "refusing to install default route %q on a secondary NIC" (r.destination ∷ []))
      else (let gateway = if r.gateway == "" then default_gateway else r.gateway in
          if gateway == "" then ok (dst, none) else with_gateway r dst gateway)

  unfoldable pub parse : Route → String → Result (IpNet × Option Ip)
  unfolding parse_to
  parse r default_gateway = elim (net.parse_cidr r.destination) [
    | none ↦ err (message "parse route destination %q" (r.destination ∷ []))
    | some dst ↦ parse_to r default_gateway dst
  ]

  -- A parsed route is never a default route, leads to the network of its destination, and its
  -- gateway, if any, is of the family of that network; a gateway that the route itself names is the
  -- one returned.
  pub parse_is_safe :
      (r : Route) (default_gateway : String) (dst : IpNet) (gw : Option Ip)
      → parse r default_gateway ≡ ok (dst, gw)
      → (dst.ones ≢ 0)
        × (net.parse_cidr r.destination ≡ some dst)
        × GatewayFits dst gw
        × ((r.gateway ≡ "") ⊎ (net.parse_ip r.gateway ≡ gw))
  unfolding parse
  parse_is_safe r default_gateway dst none h = ground (arith, eq_iff r.gateway "")
  parse_is_safe r default_gateway dst (some gw) h = ground (arith, eq_iff r.gateway "")
