-- ===== src/NicPrepare/DualStack.antt =====
-- dualStackAddresses of pkg/nicprepare/nicprepare.go: which addresses a NIC gets.
use kube_ovn_dra_driver.Prelude.{
  ℕ, String, ◌==◌, Bool, true, false, not, List, [], ◌∷◌, ◌≡◌, ◌≢◌, arith, if◌then◌else◌,
}
use kube_ovn_dra_driver.Attach.Routes.{NetParsers}
use kube_ovn_dra_driver.NicPrepare.{split, by_family, with_mask, dual_stack_addresses, family_is}

module _ (net : NetParsers) (decimal : ℕ → String) where
  -- The text is of the family, or there is none of it in the list.
  pub by_family_fits :
      (v4 : Bool) (values : List String)
      → by_family net decimal v4 values ≢ ""
      → family_is net decimal v4 (by_family net decimal v4 values) ≡ true
  unfolding by_family
  by_family_fits v4 [] h = ground arith
  by_family_fits v4 (value ∷ values) h = ground (arith, by_family_fits v4 values)

  -- The entry of a comma-separated list for a family, and the address of a family with its mask.
  abbrev pub of_family : Bool → String → String
  of_family v4 list = by_family net decimal v4 (split b',' list)

  abbrev pub address_of : Bool → String → String → String
  address_of v4 ip cidr = with_mask net decimal (of_family v4 ip) (of_family v4 cidr)

  abbrev pub only_v6 : String → String → List String
  only_v6 ip cidr = if of_family false ip == "" then [] else address_of false ip cidr ∷ []

  -- The addresses, in CIDR notation where the mask is known: an IPv4 address first, with its CIDR and
  -- gateway, and an IPv6 address behind it; an IPv6 address first, with its CIDR and gateway, where
  -- there is no IPv4 address; and the annotation as it is, with the mask of the CIDR annotation,
  -- where no family is found. So there is always a first address.
  pub dual_stack_addresses_order :
      (ip cidr gateway : String)
      → dual_stack_addresses net decimal ip cidr gateway ≡ (
          if not (of_family true ip == "")
          then record {
            ips = address_of true ip cidr ∷ only_v6 ip cidr;
            cidr = of_family true cidr;
            gateway = of_family true gateway;
          }
          else if not (of_family false ip == "")
          then record {
            ips = only_v6 ip cidr;
            cidr = of_family false cidr;
            gateway = of_family false gateway;
          }
          else record { ips = with_mask net decimal ip cidr ∷ []; cidr = ""; gateway = "" })
  unfolding dual_stack_addresses
  dual_stack_addresses_order ip cidr gateway = ground arith
