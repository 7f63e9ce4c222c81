-- ===== src/Publisher/Held/Recount.antt =====
-- ApplyHeld of internal/publisher/held.go counts anew: nothing of an earlier count is left.
use kube_ovn_dra_driver.Prelude.{
  ℕ, String, List, [], ◌∷◌, ◌≡◌, refl, ap, ◌∙◌, inl, inr, map, Option-cases, arith,
}
use kube_ovn_dra_driver.Claim.{ResourceClaim}
use kube_ovn_dra_driver.Publisher.{Subnet}
use kube_ovn_dra_driver.Publisher.Device.{NameTools}
use kube_ovn_dra_driver.Publisher.Held.{
  IpRef, Use, change_named, reset, charge, owned, addresses, charge_all, charge_claim,
  charge_claims, apply_held, names_of, uses_of,
}

reset-change_named :
    (name : String) (u : Use) (have : ℕ) (ss : List Subnet)
    → map reset (change_named name (charge u have) ss) ≡ map reset ss
unfolding change_named reset charge
reset-change_named name u have [] = refl
reset-change_named name u have (s ∷ ss) = ground (arith, reset-change_named name u have ss)

reset-reset : (ss : List Subnet) → map reset (map reset ss) ≡ map reset ss
unfolding reset
reset-reset [] = refl
reset-reset (s ∷ ss) = ap (λ rest. reset s ∷ rest) (reset-reset ss)

module _ (t : NameTools) (driver : String) (ips : List IpRef)
    (owners : String → String → List String) where
  reset-charge_all :
      (namespace : String) (names : List String) (us : List (String × Use)) (ss : List Subnet)
      → map reset (charge_all t driver ips owners namespace names us ss) ≡ map reset ss
  unfolding charge_all
  reset-charge_all namespace names [] ss = refl
  reset-charge_all namespace names ((name, u) ∷ us) ss =
      let have = owned (λ owner. addresses ips namespace owner name) [] names 0 in
      reset-charge_all namespace names us (change_named name (charge u have) ss)
      ∙ reset-change_named name u have ss

  reset-charge_claims :
      (claims : List ResourceClaim) (ss : List Subnet)
      → map reset (charge_claims t driver ips owners claims ss) ≡ map reset ss
  unfolding charge_claims charge_claim
  reset-charge_claims [] ss = refl
  reset-charge_claims (c ∷ cs) ss = elim (Option-cases c.allocation) [
    | inl e ↦ rw (e, charge_claim) (reset-charge_claims cs ss)
    | inr (a, e) ↦
        rw (e, charge_claim)
          (reset-charge_claims cs _
            ∙ reset-charge_all c.namespace (names_of t driver ips owners c.namespace c.reserved_for)
                (uses_of t driver ips owners ss a.results []) ss)
  ]

-- ApplyHeld depends on nothing that an earlier ApplyHeld left, for other claims and other ip objects
-- too: the result is that of the Subnets as they were before the earlier one.
pub apply_held_recounts :
    (t : NameTools) (driver : String) (owners : String → String → List String)
    (ips ips' : List IpRef) (old claims : List ResourceClaim) (ss : List Subnet)
    → apply_held t driver ips' owners claims (apply_held t driver ips owners old ss)
      ≡ apply_held t driver ips' owners claims ss
unfolding apply_held
apply_held_recounts t driver owners ips ips' old claims ss =
    ap (charge_claims t driver ips' owners claims)
      (reset-charge_claims t driver ips owners old (map reset ss) ∙ reset-reset ss)
